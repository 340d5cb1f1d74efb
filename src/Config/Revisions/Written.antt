-- ===== src/Config/Revisions/Written.antt =====
-- What writeRevisionLocked of internal/configstore/store.go leaves, whatever call of the file system
-- fails.
use Prim.Native.String
use text.Mathlib.TextLemmas.{append_cancel_left}
use hustmirrors_waf_backend.Base.{
  ℕ, ◌≡◌, refl, ◌∙◌, ◌⊎◌, inl, inr, String, Bool, true, false, Option, none, some, eq_iff,
}
use hustmirrors_waf_backend.Config.Files.{FileName, source, entry, FileOps}
use hustmirrors_waf_backend.Config.Files.Atomic.{Same, AreFiles, Replaced, atomic_replace-Replaced}
use hustmirrors_waf_backend.Config.Store.{RevisionMeta, Encoding, yaml_of, json_of, revision_name}
use hustmirrors_waf_backend.Config.Revisions.{
  remove_revision, written_json, write_meta, write_yaml, write_revision,
}

pub source_is_no_entry : (n : String) → ¬ (source ≡ entry n)
source_is_no_entry n e = cc

yaml_is_no_json : (n : ℕ) → ¬ (yaml_of n ≡ json_of n)
yaml_is_no_json n e =
    let same : String.◌++◌ (revision_name n) ".yaml" ≡ String.◌++◌ (revision_name n) ".json" = cc in
    let t =
      (eq_iff ".yaml" ".json").1 (append_cancel_left (revision_name n) ".yaml" ".json" same) in
    cc

module _ {F : Type 0} (ops : FileOps F) (enc : Encoding) where
  -- Every file but those of the revision reads the same.
  abbrev pub Kept : ℕ → F → F → Type 0
  Kept n f f' =
      (other : FileName)
      → (other ≡ yaml_of n) ⊎ ((other ≡ json_of n) ⊎ (ops.read other f' ≡ ops.read other f))

  -- The files of the revision are there.
  abbrev pub Recorded : RevisionMeta → String → F → Type 0
  Recorded meta raw f =
      (ops.read (yaml_of meta.revision) f ≡ some raw)
      × (text : String) × (enc.marshal meta ≡ some text)
      × (ops.read (json_of meta.revision) f ≡ some text)

  -- What writing a revision leaves.
  abbrev pub Written : RevisionMeta → String → F → F × Bool → Type 0
  Written meta raw f (f', true) = Recorded meta raw f' × Kept meta.revision f f'
  Written meta raw f (f', false) = Kept meta.revision f f'

  Kept-refl : (n : ℕ) (f : F) → Kept n f f
  Kept-refl n f other = inr (inr refl)

  Kept-trans : (n : ℕ) (f g h : F) → Kept n f g → Kept n g h → Kept n f h
  Kept-trans n f g h a b other = elim (a other) [
    | inl e ↦ inl e
    | inr (inl e) ↦ inr (inl e)
    | inr (inr e) ↦ elim (b other) [
      | inl e' ↦ inl e'
      | inr (inl e') ↦ inr (inl e')
      | inr (inr e') ↦ inr (inr (e' ∙ e))
    ]
  ]

  module _ (laws : AreFiles ops) where
    pub remove_revision-Kept : (n : ℕ) (f : F) → Kept n f (remove_revision ops enc n f)
    unfolding remove_revision
    remove_revision-Kept n f other = elim (laws.remove_others (yaml_of n) other f) [
      | inl e ↦ inl e
      | inr e ↦ elim (laws.remove_others (json_of n) other (ops.remove (yaml_of n) f)) [
        | inl e' ↦ inr (inl e')
        | inr e' ↦ inr (inr (e' ∙ e))
      ]
    ]

    yaml_Kept :
        (n : ℕ) (text : String) (f : F) (r : F × Bool)
        → Replaced ops (yaml_of n) text f r
        → Kept n f r.0
    yaml_Kept n text f (f', true) (new, others) other = elim (others other) [
      | inl e ↦ inl e
      | inr e ↦ inr (inr e)
    ]
    yaml_Kept n text f (f', false) same other = inr (inr (same other))

    json_Kept :
        (n : ℕ) (text : String) (f : F) (r : F × Bool)
        → Replaced ops (json_of n) text f r
        → Kept n f r.0
    json_Kept n text f (f', true) (new, others) other = elim (others other) [
      | inl e ↦ inr (inl e)
      | inr e ↦ inr (inr e)
    ]
    json_Kept n text f (f', false) same other = inr (inr (same other))

    -- The file of the other kind survives.
    yaml_survives :
        (n : ℕ) (text : String) (f : F) (r : F × Bool)
        → Replaced ops (json_of n) text f r
        → ops.read (yaml_of n) r.0 ≡ ops.read (yaml_of n) f
    yaml_survives n text f (f', true) (new, others) = elim (others (yaml_of n)) [
      | inl e ↦ absurd (yaml_is_no_json n e)
      | inr e ↦ e
    ]
    yaml_survives n text f (f', false) same = same (yaml_of n)

    written_json-Written :
        (meta : RevisionMeta) (raw text : String) (f : F) (r : F × Bool)
        → enc.marshal meta ≡ some text
        → ops.read (yaml_of meta.revision) f ≡ some raw
        → Replaced ops (json_of meta.revision) text f r
        → Written meta raw f (written_json ops enc meta.revision r)
    unfolding written_json
    written_json-Written meta raw text f (f', true) m y rep = (
      (yaml_survives meta.revision text f (f', true) rep ∙ y, text, m, rep.0),
      json_Kept meta.revision text f (f', true) rep,
    )
    written_json-Written meta raw text f (f', false) m y rep =
        Kept-trans meta.revision f f' _ (json_Kept meta.revision text f (f', false) rep)
          (remove_revision-Kept meta.revision f')

    Written-from :
        (meta : RevisionMeta) (raw : String) (f g : F) (r : F × Bool)
        → Kept meta.revision f g
        → Written meta raw g r
        → Written meta raw f r
    Written-from meta raw f g (h, true) a (rec, b) = (rec, Kept-trans meta.revision f g h a b)
    Written-from meta raw f g (h, false) a b = Kept-trans meta.revision f g h a b

    write_meta-Written :
        (meta : RevisionMeta) (raw : String) (o : Option String) (f : F) (r : F × Bool)
        → enc.marshal meta ≡ o
        → Replaced ops (yaml_of meta.revision) raw f r
        → Written meta raw f (write_meta ops enc meta o r)
    unfolding write_meta
    write_meta-Written meta raw none f (g, false) m rep =
        yaml_Kept meta.revision raw f (g, false) rep
    write_meta-Written meta raw (some text) f (g, false) m rep =
        yaml_Kept meta.revision raw f (g, false) rep
    write_meta-Written meta raw none f (g, true) m rep =
        Kept-trans meta.revision f g _ (yaml_Kept meta.revision raw f (g, true) rep)
          (remove_revision-Kept meta.revision g)
    write_meta-Written meta raw (some text) f (g, true) m rep =
        Written-from meta raw f g _ (yaml_Kept meta.revision raw f (g, true) rep) (
          written_json-Written meta raw text g _ m rep.0
            (atomic_replace-Replaced ops laws (json_of meta.revision) text g))

    write_yaml-Written :
        (meta : RevisionMeta) (raw : String) (f : F) (r : F × Bool)
        → Same ops f r.0
        → Written meta raw f (write_yaml ops enc meta raw r)
    unfolding write_yaml
    write_yaml-Written meta raw f (g, false) same = λ other. inr (inr (same other))
    write_yaml-Written meta raw f (g, true) same =
        Written-from meta raw f g _ (λ other. inr (inr (same other)))
          (write_meta-Written meta raw (enc.marshal meta) g _ refl
            (atomic_replace-Replaced ops laws (yaml_of meta.revision) raw g))

    pub write_revision-Written :
        (meta : RevisionMeta) (raw : String) (f : F)
        → Written meta raw f (write_revision ops enc meta raw f)
    unfolding write_revision
    write_revision-Written meta raw f =
        write_yaml-Written meta raw f (ops.mkdir_all f) (laws.mkdir_same f)
