-- ===== src/Config/Files.antt =====
-- internal/configstore/atomic.go, over the file operations of package os.
-- A file is the configuration itself, or an entry of the history directory. A pair of a state and
-- `false` stands for a call that returns an error.
pub mod Atomic
use hustmirrors_waf_backend.Base.{ℕ, String, Bool, true, false, Option, none, some, List}

pub data FileName : Type 0 where
  source : FileName
  entry : String → FileName

-- The calls of package os on states of the file system. A temporary file is known by a number.
pub record FileOps (F : Type 0) : Type 0 where
  pub read : FileName → F → Option String
  -- os.IsNotExist of the error that reading gives
  pub is_missing : FileName → F → Bool
  -- whether filepath.Abs gives a path
  pub resolves : String → Bool
  -- opening the configuration file for writing, and closing it again
  pub is_writable : F → Bool
  pub close_probe : F → F × Bool
  -- the names of the files in the history directory; `none` where ReadDir fails
  pub read_dir : F → Option (List String)
  pub mkdir_all : F → F × Bool
  pub create_temp : F → F × Option ℕ
  pub chmod : ℕ → F → F × Bool
  pub write : ℕ → String → F → F × Bool
  pub sync : ℕ → F → F × Bool
  pub close : ℕ → F → F × Bool
  pub rename : ℕ → FileName → F → F × Bool
  pub remove_temp : ℕ → F → F
  pub remove : FileName → F → F

module _ {F : Type 0} (ops : FileOps F) where
  -- The next call, if the last one has succeeded.
  abbrev pub and_then : F × Bool → (F → F × Bool) → F × Bool
  and_then (f, true) next = next f
  and_then (f, false) next = (f, false)

  -- `_ = tmp.Close()` on the error path.
  abbrev pub or_close : ℕ → F × Bool → F × Bool
  or_close t (f, true) = (f, true)
  or_close t (f, false) = ((ops.close t f).0, false)

  -- What is done with the temporary file, up to the renaming.
  unfoldable pub fill_temp : ℕ → FileName → String → F → F × Bool
  fill_temp t name text f = and_then (or_close t (ops.chmod t f)) λ f1.
      and_then (or_close t (ops.write t text f1)) λ f2.
        and_then (or_close t (ops.sync t f2))
          λ f3. and_then (ops.close t f3) λ f4. ops.rename t name f4

  -- The deferred removal of the temporary file.
  abbrev pub with_temp : FileName → String → F × Option ℕ → F × Bool
  with_temp name text (f, none) = (f, false)
  with_temp name text (f, some t) =
      let (f', done) = fill_temp t name text f in (ops.remove_temp t f', done)

  unfoldable pub atomic_replace : FileName → String → F → F × Bool
  unfolding fill_temp
  atomic_replace name text f =
      and_then (ops.mkdir_all f) λ f1. with_temp name text (ops.create_temp f1)
