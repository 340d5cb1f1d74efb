-- ===== src/Config/Files/Atomic.antt =====
-- What atomic_replace guarantees, whatever call fails.
use hustmirrors_waf_backend.Base.{
  ℕ, ◌≡◌, refl, ap, ◌∙◌, ◌⊎◌, inl, inr, String, Bool, true, false, Option, none, some,
}
use hustmirrors_waf_backend.Config.Files.{
  FileName, FileOps, and_then, or_close, fill_temp, with_temp, atomic_replace,
}

-- Two states in which every named file reads the same.
abbrev pub Same : {F : Type 0} → FileOps F → F → F → Type 0
Same ops f f' = (name : FileName) → ops.read name f' ≡ ops.read name f

-- What the program relies on. `text_of` is the content of a temporary file.
pub record AreFiles {F : Type 0} (ops : FileOps F) : Type 0 where
  pub text_of : ℕ → F → Option String
  pub mkdir_same : (f : F) → Same ops f (ops.mkdir_all f).0
  pub temp_same : (f : F) → Same ops f (ops.create_temp f).0
  pub chmod_same : (t : ℕ) (f : F) → Same ops f (ops.chmod t f).0
  pub write_same : (t : ℕ) (text : String) (f : F) → Same ops f (ops.write t text f).0
  pub sync_same : (t : ℕ) (f : F) → Same ops f (ops.sync t f).0
  pub close_same : (t : ℕ) (f : F) → Same ops f (ops.close t f).0
  pub remove_temp_same : (t : ℕ) (f : F) → Same ops f (ops.remove_temp t f)
  pub written :
      (t : ℕ) (text : String) (f : F)
      → (ops.write t text f).1 ≡ true
      → text_of t (ops.write t text f).0 ≡ some text
  pub sync_text : (t : ℕ) (f : F) → text_of t (ops.sync t f).0 ≡ text_of t f
  pub close_text : (t : ℕ) (f : F) → text_of t (ops.close t f).0 ≡ text_of t f
  pub renamed :
      (t : ℕ) (name : FileName) (f : F)
      → (ops.rename t name f).1 ≡ true
      → ops.read name (ops.rename t name f).0 ≡ text_of t f
  pub rename_others :
      (t : ℕ) (name other : FileName) (f : F)
      → (other ≡ name) ⊎ (ops.read other (ops.rename t name f).0 ≡ ops.read other f)
  pub rename_fails :
      (t : ℕ) (name : FileName) (f : F)
      → (ops.rename t name f).1 ≡ false
      → Same ops f (ops.rename t name f).0
  pub remove_others :
      (name other : FileName) (f : F)
      → (other ≡ name) ⊎ (ops.read other (ops.remove name f) ≡ ops.read other f)

module _ {F : Type 0} (ops : FileOps F) where
  -- The file has the new text, and every other file is as it was; or nothing has changed.
  abbrev pub Replaced : FileName → String → F → F × Bool → Type 0
  Replaced name text f (f', true) =
      (ops.read name f' ≡ some text)
      × ((other : FileName) → (other ≡ name) ⊎ (ops.read other f' ≡ ops.read other f))
  Replaced name text f (f', false) = Same ops f f'

  module _ (laws : AreFiles ops) (name : FileName) (text : String) where
    Replaced-from :
        (f f' : F) (r : F × Bool) → Same ops f f' → Replaced name text f' r → Replaced name text f r
    Replaced-from f f' (f2, true) same (new, others) =
        (new, λ other. elim (others other) [ inl e ↦ inl e | inr e ↦ inr (e ∙ same other) ])
    Replaced-from f f' (f2, false) same h = λ n. h n ∙ same n

    Replaced-after :
        (f : F) (r : F × Bool) (f' : F)
        → Same ops r.0 f'
        → Replaced name text f r
        → Replaced name text f (f', r.1)
    Replaced-after f (f2, true) f' same (new, others) = (
      same name ∙ new,
      λ other. elim (others other) [ inl e ↦ inl e | inr e ↦ inr (same other ∙ e) ],
    )
    Replaced-after f (f2, false) f' same h = λ n. same n ∙ h n

    then_Replaced :
        (f : F) (r : F × Bool) (next : F → F × Bool)
        → Same ops f r.0
        → (r.1 ≡ true → Replaced name text r.0 (next r.0))
        → Replaced name text f (and_then ops r next)
    then_Replaced f (f', false) next same go = same
    then_Replaced f (f', true) next same go = Replaced-from f f' (next f') same (go refl)

    or_close-Same :
        (t : ℕ) (f : F) (r : F × Bool) → Same ops f r.0 → Same ops f (or_close ops t r).0
    or_close-Same t f (f', true) same = same
    or_close-Same t f (f', false) same = λ n. laws.close_same t f' n ∙ same n

    or_close_ok :
        (t : ℕ) (r : F × Bool) → (or_close ops t r).1 ≡ true → (or_close ops t r ≡ r) × (r.1 ≡ true)
    or_close_ok t (f', true) e = (refl, refl)
    or_close_ok t (f', false) e = cc

    rename_Replaced :
        (t : ℕ) (f : F) (b : Bool)
        → laws.text_of t f ≡ some text
        → (ops.rename t name f).1 ≡ b
        → Replaced name text f ((ops.rename t name f).0, b)
    rename_Replaced t f true e done =
        (laws.renamed t name f done ∙ e, λ other. laws.rename_others t name other f)
    rename_Replaced t f false e done = laws.rename_fails t name f done

    fill_temp-Replaced : (t : ℕ) (f : F) → Replaced name text f (fill_temp ops t name text f)
    unfolding fill_temp
    fill_temp-Replaced t f =
        then_Replaced f (or_close ops t (ops.chmod t f)) _
          (or_close-Same t f (ops.chmod t f) (laws.chmod_same t f))
          λ _.
            let f1 = (or_close ops t (ops.chmod t f)).0 in
            let w = ops.write t text f1 in
            then_Replaced f1 (or_close ops t w) _ (or_close-Same t f1 w (laws.write_same t text f1))
              λ ok2.
                let f2 = (or_close ops t w).0 in
                let (is_w, wrote) = or_close_ok t w ok2 in
                let text2 : laws.text_of t f2 ≡ some text =
                  ap (λ r. laws.text_of t r.0) is_w ∙ laws.written t text f1 wrote in
                let y = ops.sync t f2 in
                then_Replaced f2 (or_close ops t y) _ (or_close-Same t f2 y (laws.sync_same t f2))
                  λ ok3.
                    let f3 = (or_close ops t y).0 in
                    let text3 : laws.text_of t f3 ≡ some text =
                      ap (λ r. laws.text_of t r.0) (or_close_ok t y ok3).0
                      ∙ laws.sync_text t f2
                      ∙ text2 in
                    then_Replaced f3 (ops.close t f3) _ (laws.close_same t f3) λ _.
                      rename_Replaced t (ops.close t f3).0 _ (laws.close_text t f3 ∙ text3) refl

    with_temp-Replaced :
        (f : F) (o : F × Option ℕ)
        → Same ops f o.0
        → Replaced name text f (with_temp ops name text o)
    with_temp-Replaced f (f', none) same = same
    with_temp-Replaced f (f', some t) same = Replaced-from f f' _ same (
        Replaced-after f' (fill_temp ops t name text f')
          (ops.remove_temp t (fill_temp ops t name text f').0) (laws.remove_temp_same t _)
          (fill_temp-Replaced t f'))

    -- Whichever call fails, replacing a file either fails and leaves every file as it was, or succeeds:
    -- then the file has the new text and every other file is as it was.
    pub atomic_replace-Replaced : (f : F) → Replaced name text f (atomic_replace ops name text f)
    unfolding atomic_replace
    atomic_replace-Replaced f = then_Replaced f (ops.mkdir_all f) _ (laws.mkdir_same f) λ _.
        with_temp-Replaced (ops.mkdir_all f).0 (ops.create_temp (ops.mkdir_all f).0)
          (laws.temp_same _)
