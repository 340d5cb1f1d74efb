-- ===== src/Config/Revisions/Apply.antt =====
-- What Apply of internal/configstore/store.go guarantees, whatever call of the file system fails.
use mathlib.Core.Path.{subst}
use hustmirrors_waf_backend.Base.{
  ℕ, ◌≡◌, refl, sym, ap, ◌∙◌, ◌⊎◌, inl, inr, String, Bool, true, false, Option, none, some, ◌==◌,
  str_eq, Fallible, ok, err, require, require->>-eq-ok, require-eq-ok, >>-eq-ok, eq_iff,
}
use hustmirrors_waf_backend.Config.Files.{FileName, source, entry, FileOps}
use hustmirrors_waf_backend.Config.Files.Atomic.{AreFiles, Replaced, atomic_replace-Replaced}
use hustmirrors_waf_backend.Config.Store.{
  Store, RevisionMeta, Revision, ApplyRequest, ApplyResult, Encoding, ConfigError, conflict, io,
  next_revision, yaml_of, json_of,
}
use hustmirrors_waf_backend.Config.Revisions.{
  check_external, apply_checks, apply_meta, applied_store, applied, recorded, checked_apply, apply,
  read_meta, read_yaml, has_no_meta, history_get,
}
use hustmirrors_waf_backend.Config.Revisions.Written.{
  Kept, Recorded, Written, source_is_no_entry, remove_revision-Kept, write_revision-Written,
}

module _ {F : Type 0} (ops : FileOps F) (enc : Encoding) where
  -- An error leaves the store and the configuration file as they are. A success replaces a file that
  -- was as the store knew it, and records the new revision.
  abbrev pub Outcome :
      ApplyRequest → Store → F → Store × F × Fallible ConfigError ApplyResult → Type 0
  Outcome req s f (s', f', err e) = (s' ≡ s) × (ops.read source f' ≡ ops.read source f)
  Outcome req s f (s', f', ok res) =
      (ops.read source f ≡ some s.raw)
      × (ops.read source f' ≡ some req.raw)
      × (s' ≡ applied_store ops enc res.meta req.raw s)
      × (res.meta.revision ≡ next_revision s.revision)
      × Recorded ops enc res.meta req.raw f'

  Kept-source : (n : ℕ) (f f' : F) → Kept ops enc n f f' → ops.read source f' ≡ ops.read source f
  Kept-source n f f' kept = elim (kept source) [
    | inl e ↦ absurd (source_is_no_entry _ e)
    | inr (inl e) ↦ absurd (source_is_no_entry _ e)
    | inr (inr e) ↦ e
  ]

  matching_raw :
      (s : Store) (o : Option String)
      → (elim o as (λ x. Fallible ConfigError (Unit {0})) [
        | none ↦ err io
        | some raw ↦ require (str_eq raw s.raw) conflict
      ])
        ≡ ok tt
      → o ≡ some s.raw
  matching_raw s none h = cc
  matching_raw s (some raw) h = ap some ((eq_iff raw s.raw).0 (require-eq-ok _ _ h))

  check_external-raw :
      (s : Store) (f : F)
      → check_external ops enc s f ≡ ok tt
      → s.managed ≡ true
      → ops.read source f ≡ some s.raw
  unfolding check_external
  check_external-raw s f h m = matching_raw s (ops.read source f) (rw m at h)

  apply_checks-raw :
      (req : ApplyRequest) (s : Store) (f : F)
      → apply_checks ops enc req s f ≡ ok tt
      → ops.read source f ≡ some s.raw
  unfolding apply_checks
  apply_checks-raw req s f h =
      let (m, h1) = require->>-eq-ok _ _ _ h in
      let (c, h2) = >>-eq-ok (check_external ops enc s f) _ h1 in check_external-raw s f c m

  entry_survives :
      (g h : F) (name : String)
      → ((other : FileName) → (other ≡ source) ⊎ (ops.read other h ≡ ops.read other g))
      → ops.read (entry name) h ≡ ops.read (entry name) g
  entry_survives g h name others = elim (others (entry name)) [
    | inl e ↦ absurd (source_is_no_entry name (sym e))
    | inr e ↦ e
  ]

  module _ (laws : AreFiles ops) where
    applied-Outcome :
        (meta : RevisionMeta) (req : ApplyRequest) (s : Store) (f g : F) (r : F × Bool)
        → ops.read source f ≡ some s.raw
        → ops.read source g ≡ ops.read source f
        → meta.revision ≡ next_revision s.revision
        → Recorded ops enc meta req.raw g
        → Replaced ops source req.raw g r
        → Outcome req s f (applied ops enc meta req s r)
    unfolding applied
    applied-Outcome meta req s f g (h, false) raw same n rec rep = (
      refl,
      Kept-source meta.revision h _ (remove_revision-Kept ops enc laws meta.revision h)
          ∙ rep source
          ∙ same,
    )
    applied-Outcome meta req s f g (h, true) raw same n (yaml, text, m, json) (new, others) = (
      raw,
      new,
      refl,
      n,
      (entry_survives g h _ others ∙ yaml, text, m, entry_survives g h _ others ∙ json),
    )

    recorded-Outcome :
        (meta : RevisionMeta) (req : ApplyRequest) (s : Store) (f : F) (r : F × Bool)
        → ops.read source f ≡ some s.raw
        → meta.revision ≡ next_revision s.revision
        → Written ops enc meta req.raw f r
        → Outcome req s f (recorded ops enc meta req s r)
    unfolding recorded
    recorded-Outcome meta req s f (g, false) raw n kept = (refl, Kept-source meta.revision f g kept)
    recorded-Outcome meta req s f (g, true) raw n (rec, kept) =
        applied-Outcome meta req s f g _ raw (Kept-source meta.revision f g kept) n rec
          (atomic_replace-Replaced ops laws source req.raw g)

    checked_apply-Outcome :
        (now : ℕ) (req : ApplyRequest) (s : Store) (f : F) (r : Fallible ConfigError (Unit {0}))
        → apply_checks ops enc req s f ≡ r
        → Outcome req s f (checked_apply ops enc now req s f r)
    unfolding checked_apply apply_meta
    checked_apply-Outcome now req s f (err e) h = (refl, refl)
    checked_apply-Outcome now req s f (ok tt) h =
        recorded-Outcome (apply_meta ops enc now req s) req s f _ (apply_checks-raw req s f h) refl
          (write_revision-Written ops enc laws (apply_meta ops enc now req s) req.raw f)

    -- Apply is atomic, whichever call of the file system or of the encoding fails. An error leaves the
    -- store and the configuration file as they are. A success means that the file was as the store
    -- knew it; the file then has the new text, the store the new revision and no draft, and the history
    -- both files of that revision.
    pub apply-Outcome :
        (now : ℕ) (req : ApplyRequest) (s : Store) (f : F)
        → Outcome req s f (apply ops enc now req s f)
    unfolding apply
    apply-Outcome now req s f =
        checked_apply-Outcome now req s f (apply_checks ops enc req s f) refl

    has_no_meta_found :
        (n : ℕ) (f : F) (text : String)
        → ops.read (json_of n) f ≡ some text
        → has_no_meta ops enc n f ≡ false
    unfolding has_no_meta
    has_no_meta_found n f text e =
        ap (λ o. elim o as (λ x. Bool) [ none ↦ ops.is_missing (json_of n) f | some t ↦ false ]) e

    read_meta_found :
        (name : FileName) (f : F) (text : String) (meta : RevisionMeta)
        → ops.read name f ≡ some text
        → enc.unmarshal text ≡ some meta
        → read_meta ops enc name f ≡ ok meta
    unfolding read_meta
    read_meta_found name f text meta e u =
        ap
          (λ o. elim o as (λ x. Fallible ConfigError RevisionMeta) [
            | none ↦ err io
            | some t ↦ elim (enc.unmarshal t) as (λ y. Fallible ConfigError RevisionMeta) [
              | none ↦ err io
              | some m ↦ ok m
            ]
          ])
          e
        ∙ ap
            (λ o. elim o as (λ y. Fallible ConfigError RevisionMeta) [
              | none ↦ err io
              | some m ↦ ok m
            ])
            u

    read_yaml_found :
        (n : ℕ) (f : F) (meta : RevisionMeta) (raw : String)
        → ops.read (yaml_of n) f ≡ some raw
        → read_yaml ops enc n f meta ≡ ok (record { meta = meta; raw = raw })
    unfolding read_yaml
    read_yaml_found n f meta raw e =
        ap
          (λ o. elim o as (λ x. Fallible ConfigError Revision) [
            | none ↦ err io
            | some t ↦ ok (record { meta = meta; raw = t })
          ])
          e

    read_back :
        (meta : RevisionMeta) (raw : String) (s : Store) (f : F)
        → s.managed ≡ true
        → (meta.revision == 0) ≡ false
        → ((m : RevisionMeta) (text : String)
            → enc.marshal m ≡ some text
            → enc.unmarshal text ≡ some m)
        → Recorded ops enc meta raw f
        → history_get ops enc meta.revision s f ≡ ok (record { meta = meta; raw = raw })
    unfolding history_get
    read_back meta raw s f m n codec (yaml, text, made, json) =
        rw (m, n, has_no_meta_found meta.revision f text json)
          (rw (read_meta_found (json_of meta.revision) f text meta json (codec meta text made))
            (read_yaml_found meta.revision f meta raw yaml))

    managed_kept :
        (meta : RevisionMeta) (raw : String) (s s' : Store)
        → s' ≡ applied_store ops enc meta raw s
        → s'.managed ≡ s.managed
    unfolding applied_store
    managed_kept meta raw s s' e = ap (λ x. x.managed) e

    -- What a successful Apply of a managed store has recorded is what HistoryGet gives for the new
    -- revision, if that is not 0 and decoding inverts the encoding.
    pub apply-history_get :
        (now : ℕ) (req : ApplyRequest) (s s' : Store) (f f' : F) (res : ApplyResult)
        → s.managed ≡ true
        → (next_revision s.revision == 0) ≡ false
        → ((m : RevisionMeta) (text : String)
            → enc.marshal m ≡ some text
            → enc.unmarshal text ≡ some m)
        → apply ops enc now req s f ≡ (s', f', ok res)
        → history_get ops enc (next_revision s.revision) s' f'
          ≡ ok (record { meta = res.meta; raw = req.raw })
    apply-history_get now req s s' f f' res m n codec e =
        let (_, _, store, number, rec) = subst (Outcome req s f) e (apply-Outcome now req s f) in
        subst (λ k. history_get ops enc k s' f' ≡ ok (record { meta = res.meta; raw = req.raw }))
          number
          (read_back res.meta req.raw s' f' (managed_kept res.meta req.raw s s' store ∙ m)
            (ap (λ k. k == 0) number ∙ n) codec rec)
