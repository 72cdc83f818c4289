-- ===== src/Broker/Vault.antt =====
-- What the write broker does to the files of the vault, and to its own.
use homeops_ai.Prelude.{lookup}
use homeops_ai.Prelude.{
  ℕ, String, ◌≡◌, refl, ◌∙◌, sym, Option, none, some, List, [], ◌∷◌, false, arith, str_eq, eq_iff,
  Bool-cases, inl, inr, ap, subst,
}
use homeops_ai.Value.{Value, Dict, get}
use homeops_ai.Broker.Note.{text_of}
use homeops_ai.Broker.State.{
  Host, Intent, Entry, regular, Vault, Fault, before_open, before_create, before_link, after_link,
  Unlink, unlinks, fails_before, fails_after, Env, World, publish_result, written,
}
use homeops_ai.Broker.Process.{
  Link, linked, file_exists, os_error, without, cleanup, link_absent, link_at, create_at,
  publish_at, publish_note,
}
use homeops_ai.Broker.Handle.{handle, Command, run}
use homeops_ai.Broker.Steps.{
  LeavesVault, by_link, by_exists, by_error, IsKept, handle-kept, run-kept,
}

module _ {ℓ} {A : Type ℓ} where
  -- An entry under a new key hides no other.
  pub lookup-cons_new :
      (j k : String) (a b : A) (ps : List (String × A))
      → lookup j ps ≡ none
      → lookup k ps ≡ some b
      → lookup k ((j, a) ∷ ps) ≡ some b
  lookup-cons_new j k a b ps new h = elim (Bool-cases (str_eq j k)) [
    | inr e ↦ rw e h
    | inl e ↦
        let same : lookup j ps ≡ some b =
          subst (λ x. lookup x ps ≡ some b) (sym ((eq_iff j k).0 e)) h in
        absurd (cc (new, same))
  ]

  pub lookup-cons_self :
      (k : String) (a : A) (ps : List (String × A)) → lookup k ((k, a) ∷ ps) ≡ some a
  lookup-cons_self k a ps = rw ((eq_iff k k).1 refl)

pub lookup-without :
    (t k : String) (v : Vault) → str_eq t k ≡ false → lookup k (without t v) ≡ lookup k v
lookup-without t k [] h = refl
lookup-without t k (p ∷ v) h = ground (arith, lookup-without t k v h, eq_iff p.0 t, eq_iff p.0 k)

-- A file of the vault stays as it is.
abbrev pub KeepsFile : String → Entry → World → World → Type 0
KeepsFile name e u v = lookup name u.vault ≡ some e → lookup name v.vault ≡ some e

-- What the broker has recorded stays as it is.
abbrev pub Grows : World → World → Type 0
Grows u v =
    ((id : String) (i : Intent) → lookup id u.requests ≡ some i → lookup id v.requests ≡ some i)
    × ((id : String) (r : Dict) → lookup id u.results ≡ some r → lookup id v.results ≡ some r)

written-vault :
    (w : World) (id : String) (r : Dict) (o : Option Dict) → (written w id r o).0.vault ≡ w.vault
written-vault w id r none = refl
written-vault w id r (some e) = refl

written-Grows :
    (w : World) (id : String) (r : Dict) (o : Option Dict)
    → lookup id w.results ≡ o
    → Grows w (written w id r o).0
written-Grows w id r none e = (λ id i h. h, λ k x h. lookup-cons_new id k r x w.results e h)
written-Grows w id r (some x) e = (λ id i h. h, λ id y h. h)

publish_result-vault : (r : Dict) (w : World) → (publish_result r w).0.vault ≡ w.vault
unfolding publish_result
publish_result-vault r w = written-vault w (text_of (get r "request_id")) r _

pub publish_result-Grows : (w : World) (r : Dict) → Grows w (publish_result r w).0
unfolding publish_result
publish_result-Grows w r = written-Grows w (text_of (get r "request_id")) r _ refl

module _ (env : Env) where
  -- What becomes of a file under another name than the temporary one.
  module _ (name target content : String) (e : Entry)
      (apart : str_eq env.temporary_name name ≡ false) where
    abbrev Keeps : Vault → Type 0
    Keeps v = lookup name v ≡ some e

    cleanup-Keeps :
        (d : Unlink) (l : Link) (u : Vault)
        → ((v : Vault) → LeavesVault l v → Keeps v)
        → LeavesVault (cleanup d env.temporary_name l) u
        → Keeps u
    cleanup-Keeps unlinks (linked v) u f (by_link _) =
        lookup-without env.temporary_name name v apart ∙ f v (by_link v)
    cleanup-Keeps unlinks (file_exists v) u f (by_exists _) =
        lookup-without env.temporary_name name v apart ∙ f v (by_exists v)
    cleanup-Keeps unlinks (os_error v) u f (by_error _) =
        lookup-without env.temporary_name name v apart ∙ f v (by_error v)
    cleanup-Keeps fails_before (linked v) u f (by_error _) = f v (by_link v)
    cleanup-Keeps fails_before (file_exists v) u f (by_error _) = f v (by_exists v)
    cleanup-Keeps fails_before (os_error v) u f (by_error _) = f v (by_error v)
    cleanup-Keeps fails_after (linked v) u f (by_error _) =
        lookup-without env.temporary_name name v apart ∙ f v (by_link v)
    cleanup-Keeps fails_after (file_exists v) u f (by_error _) =
        lookup-without env.temporary_name name v apart ∙ f v (by_exists v)
    cleanup-Keeps fails_after (os_error v) u f (by_error _) =
        lookup-without env.temporary_name name v apart ∙ f v (by_error v)

    created-Keeps :
        (text : String) (v : Vault) → Keeps v → Keeps ((env.temporary_name, regular text) ∷ v)
    created-Keeps text v k = rw apart k

    linked-Keeps : (v u : Vault) → Keeps v → LeavesVault (linked v) u → Keeps u
    linked-Keeps v u k (by_link _) = k

    link_absent-Keeps :
        (fault : Fault) (v : Vault) (o : Option Entry) (u : Vault)
        → lookup target v ≡ o
        → Keeps v
        → LeavesVault (link_absent fault target content v o) u
        → Keeps u
    link_absent-Keeps fault v (some x) u new k (by_exists _) = k
    link_absent-Keeps after_link v none u new k (by_error _) =
        lookup-cons_new target name (regular content) e v new k
    link_absent-Keeps fault v none u new k l =
        linked-Keeps ((target, regular content) ∷ v) u
          (lookup-cons_new target name (regular content) e v new k) l

    link_at-Keeps :
        (fault : Fault) (v u : Vault)
        → Keeps v
        → LeavesVault (link_at env target content v fault) u
        → Keeps u
    link_at-Keeps before_link v u k (by_error _) = created-Keeps (env.written content) v k
    link_at-Keeps fault v u k l =
        let created : Vault = (env.temporary_name, regular content) ∷ v in
        link_absent-Keeps fault created (lookup target created) u refl (created-Keeps content v k) l

    create_at-Keeps :
        (fault : Fault) (v : Vault) (o : Option Entry) (u : Vault)
        → Keeps v
        → LeavesVault (create_at env target content v fault o) u
        → Keeps u
    create_at-Keeps before_create v o u k (by_error _) = k
    create_at-Keeps fault v none u k l = link_at-Keeps fault v u k l
    create_at-Keeps fault v (some x) u k (by_exists _) = k

    publish_at-Keeps :
        (fault : Fault) (v u : Vault)
        → Keeps v
        → LeavesVault (publish_at env target content v fault) u
        → Keeps u
    publish_at-Keeps before_open v u k (by_error _) = k
    publish_at-Keeps fault v u k l =
        let o = lookup env.temporary_name v in
        cleanup-Keeps env.unlink (create_at env target content v fault o) u
          (λ x m. create_at-Keeps fault v o x k m) l

  KeepsFile-kept :
      (name : String) (e : Entry)
      → str_eq env.temporary_name name ≡ false
      → ((k : ℕ) (v : Vault) → lookup name v ≡ some e → lookup name (env.sync k v) ≡ some e)
      → IsKept env (KeepsFile name e)
  unfolding publish_note
  KeepsFile-kept name e apart others = record {
    same = λ w h. h;
    chain = λ u v w p q h. q (p h);
    sync = λ w k h. others k w.vault h;
    publish = λ w r h. ap (lookup name) (publish_result-vault r w) ∙ h;
    link = λ w target content v l h.
        publish_at-Keeps name target content e apart env.fault w.vault v h l;
    accept = λ w id i new h. h;
  }

  Grows-kept : IsKept env Grows
  Grows-kept = record {
    same = λ w. (λ id i h. h, λ id r h. h);
    chain = λ u v w p q. (λ id i h. q.0 id i (p.0 id i h), λ id r h. q.1 id r (p.1 id r h));
    sync = λ w k. (λ id i h. h, λ id r h. h);
    publish = publish_result-Grows;
    link = λ w target content v l. (λ id i h. h, λ id r h. h);
    accept = λ w id i new. (λ k x h. lookup-cons_new id k i x w.requests new h, λ k r h. h);
  }

  -- The broker never changes and never removes a file of the vault, except under the name of its
  -- temporary file: whatever the request and the faults, a file under another name that the others
  -- leave alone is afterwards as it was.
  pub handle-KeepsFile :
      (host : Host) (allowed : List String) (request : Value) (w : World) (name : String)
      (e : Entry)
      → str_eq env.temporary_name name ≡ false
      → ((k : ℕ) (v : Vault) → lookup name v ≡ some e → lookup name (env.sync k v) ≡ some e)
      → lookup name w.vault ≡ some e
      → lookup name (handle host allowed env request w).0.vault ≡ some e
  handle-KeepsFile host allowed request w name e apart others h =
      handle-kept env (KeepsFile name e) (KeepsFile-kept name e apart others) host allowed request w
        h

  pub handle-Grows :
      (host : Host) (allowed : List String) (request : Value) (w : World)
      → Grows w (handle host allowed env request w).0
  handle-Grows host allowed request w = handle-kept env Grows Grows-kept host allowed request w

  pub run-Grows : (host : Host) (c : Command) (w : World) → Grows w (run host env c w).0
  run-Grows host c w = run-kept env Grows Grows-kept host c w
