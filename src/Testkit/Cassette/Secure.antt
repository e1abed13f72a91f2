-- ===== src/Testkit/Cassette/Secure.antt =====
-- processkittest/cassette_unix.go: `writeFileSecure`. The calls of package os are parameters; a file that
-- was opened is known by its descriptor, also after that is closed.
use processkit_go.Prelude.{
  ℤ, ℕ, suc, ◌<◌, ◌*◌, Bool, true, false, Option, none, some, [], Bytes, ◌≡◌, ◌∙◌, refl, arith,
}
use processkit_go.Errors.{Error, Fallible, ok, err}
use processkit_go.Testkit.Cassette.{CassetteFile, RecordReplayRunner, save}
use processkit_go.Testkit.Cassette.Files.{Files, on_marshalled, write_cassette, save_to}

-- O_WRONLY, O_CREATE, O_TRUNC and O_NOFOLLOW.
pub record OpenFlags : Type 0 where
  pub write_only : Bool
  pub create : Bool
  pub truncate : Bool
  pub no_follow : Bool

pub record FileOps (W : Type 0) : Type 0 where
  -- `os.OpenFile`, with the flags and the mode of a new file.
  pub open_file : OpenFlags → ℕ → Bytes → W → Fallible ℤ × W
  pub chmod : ℤ → ℕ → W → Option Error × W
  pub write : ℤ → Bytes → W → Option Error × W
  pub close_file : ℤ → W → Option Error × W

-- 0600.
abbrev pub owner_only : ℕ
owner_only = 6 * 64

-- The flags of the opening.
unfoldable pub secure_flags : OpenFlags
secure_flags = record { write_only = true; create = true; truncate = true; no_follow = true }

module _ {W : Type 0} (os : FileOps W) where
  -- After `f.Write`.
  unfoldable pub on_written : ℤ → Option Error × W → Option Error × W
  on_written f (some e, w) = (some e, (os.close_file f w).1)
  on_written f (none, w) = os.close_file f w

  -- After `f.Chmod`.
  unfoldable pub on_tightened : ℤ → Bytes → Option Error × W → Option Error × W
  on_tightened f text (some e, w) = (some e, (os.close_file f w).1)
  on_tightened f text (none, w) = on_written f (os.write f text w)

  -- After `os.OpenFile`.
  unfoldable pub on_opened : Bytes → Fallible ℤ × W → Option Error × W
  on_opened text (err e, w) = (some e, w)
  on_opened text (ok f, w) = on_tightened f text (os.chmod f owner_only w)

  -- `writeFileSecure`.
  unfoldable pub write_secure : Bytes → Bytes → W → Option Error × W
  unfolding on_opened on_tightened on_written
  write_secure path text w = on_opened text (os.open_file secure_flags owner_only path w)

  -- The files whose cassettes are written so.
  unfoldable pub secure_files : Files W → Files W
  unfolding write_secure
  secure_files files = record files { write_file_secure = write_secure }

-- What a world shows of its files, and what the calls do to it.
pub record FileLaws {W : Type 0} (os : FileOps W) : Type 0 where
  pub mode_of : ℤ → W → ℕ
  pub text_of : ℤ → W → Bytes
  pub is_link : Bytes → W → Bool
  -- How many descriptors are open.
  pub held : W → ℕ
  -- An opening with O_NOFOLLOW opens no link, and one with O_TRUNC empties the file.
  pub open_refuses_link :
      (flags : OpenFlags) (mode : ℕ) (path : Bytes) (w : W) (f : ℤ)
      → flags.no_follow ≡ true
      → (os.open_file flags mode path w).0 ≡ ok f
      → is_link path w ≡ false
  pub open_truncates :
      (flags : OpenFlags) (mode : ℕ) (path : Bytes) (w : W) (f : ℤ)
      → flags.truncate ≡ true
      → (os.open_file flags mode path w).0 ≡ ok f
      → text_of f (os.open_file flags mode path w).1 ≡ []
  pub open_holds :
      (flags : OpenFlags) (mode : ℕ) (path : Bytes) (w : W) (f : ℤ)
      → (os.open_file flags mode path w).0 ≡ ok f
      → held (os.open_file flags mode path w).1 ≡ suc (held w)
  pub failed_open_holds :
      (flags : OpenFlags) (mode : ℕ) (path : Bytes) (w : W) (e : Error)
      → (os.open_file flags mode path w).0 ≡ err e
      → held (os.open_file flags mode path w).1 ≡ held w
  pub chmod_sets :
      (f : ℤ) (mode : ℕ) (w : W)
      → (os.chmod f mode w).0 ≡ none
      → mode_of f (os.chmod f mode w).1 ≡ mode
  pub chmod_keeps : (f : ℤ) (mode : ℕ) (w : W) → text_of f (os.chmod f mode w).1 ≡ text_of f w
  pub chmod_holds : (f : ℤ) (mode : ℕ) (w : W) → held (os.chmod f mode w).1 ≡ held w
  pub write_keeps : (f : ℤ) (text : Bytes) (w : W) → mode_of f (os.write f text w).1 ≡ mode_of f w
  pub write_fills :
      (f : ℤ) (text : Bytes) (w : W)
      → (os.write f text w).0 ≡ none
      → text_of f w ≡ []
      → text_of f (os.write f text w).1 ≡ text
  pub write_holds : (f : ℤ) (text : Bytes) (w : W) → held (os.write f text w).1 ≡ held w
  pub close_keeps_mode : (f : ℤ) (w : W) → mode_of f (os.close_file f w).1 ≡ mode_of f w
  pub close_keeps_text : (f : ℤ) (w : W) → text_of f (os.close_file f w).1 ≡ text_of f w
  pub close_frees : (f : ℤ) (w : W) → 0 < held w → suc (held (os.close_file f w).1) ≡ held w

module _ {W : Type 0} {os : FileOps W} (laws : FileLaws os) where
  open laws use {mode_of, text_of, is_link, held}

  -- What a write to `path` that began in `w` has come to.
  pub data Stored (path : Bytes) (text : Bytes) (w : W) : Option Error × W → Type 0 where
    -- Nothing was opened.
    unopened : (e : Error) (w' : W) → held w' ≡ held w → Stored path text w (some e, w')
    -- The file was left empty.
    emptied :
        (e : Error) (f : ℤ) (w' : W)
        → is_link path w ≡ false
        → text_of f w' ≡ []
        → held w' ≡ held w
        → Stored path text w (some e, w')
    -- Some of the text may be in the file, which only its owner can read.
    broken :
        (e : Error) (f : ℤ) (w' : W)
        → is_link path w ≡ false
        → mode_of f w' ≡ owner_only
        → held w' ≡ held w
        → Stored path text w (some e, w')
    -- All of it is, and only its owner can read the file.
    complete :
        (f : ℤ) (w' : W)
        → is_link path w ≡ false
        → mode_of f w' ≡ owner_only
        → text_of f w' ≡ text
        → held w' ≡ held w
        → Stored path text w (none, w')

  module _ (path : Bytes) (text : Bytes) (w : W) (real : is_link path w ≡ false) where
    closed-Stored :
        (f : ℤ) (r : Option Error × W)
        → mode_of f r.1 ≡ owner_only
        → text_of f r.1 ≡ text
        → held r.1 ≡ held w
        → Stored path text w r
    closed-Stored f (none, w') m t h = complete f w' real m t h
    closed-Stored f (some e, w') m t h = broken e f w' real m h

    on_written-Stored :
        (f : ℤ) (r : Option Error × W)
        → mode_of f r.1 ≡ owner_only
        → (r.0 ≡ none → text_of f r.1 ≡ text)
        → held r.1 ≡ suc (held w)
        → Stored path text w (on_written os f r)
    unfolding on_written
    on_written-Stored f (some e, v) m t h =
        broken e f _ real (laws.close_keeps_mode f v ∙ m)
          (omega (arith, laws.close_frees f v (omega (arith, h))))
    on_written-Stored f (none, v) m t h =
        closed-Stored f (os.close_file f v) (laws.close_keeps_mode f v ∙ m)
          (laws.close_keeps_text f v ∙ t refl)
          (omega (arith, laws.close_frees f v (omega (arith, h))))

    on_tightened-Stored :
        (f : ℤ) (r : Option Error × W)
        → (r.0 ≡ none → mode_of f r.1 ≡ owner_only)
        → text_of f r.1 ≡ []
        → held r.1 ≡ suc (held w)
        → Stored path text w (on_tightened os f text r)
    unfolding on_tightened
    on_tightened-Stored f (some e, v) m t h =
        emptied e f _ real (laws.close_keeps_text f v ∙ t)
          (omega (arith, laws.close_frees f v (omega (arith, h))))
    on_tightened-Stored f (none, v) m t h =
        on_written-Stored f (os.write f text v) (laws.write_keeps f text v ∙ m refl)
          (λ done. laws.write_fills f text v done t) (laws.write_holds f text v ∙ h)

  on_opened-Stored :
      (path : Bytes) (text : Bytes) (w : W) (r : Fallible ℤ × W)
      → ((f : ℤ)
          → r.0 ≡ ok f
          → (is_link path w ≡ false) × (text_of f r.1 ≡ []) × (held r.1 ≡ suc (held w)))
      → ((e : Error) → r.0 ≡ err e → held r.1 ≡ held w)
      → Stored path text w (on_opened os text r)
  unfolding on_opened
  on_opened-Stored path text w (err e, v) opened failed = unopened e v (failed e refl)
  on_opened-Stored path text w (ok f, v) opened failed =
      let (real, empty, holds) = opened f refl in
      on_tightened-Stored path text w real f (os.chmod f owner_only v)
        (laws.chmod_sets f owner_only v) (laws.chmod_keeps f owner_only v ∙ empty)
        (laws.chmod_holds f owner_only v ∙ holds)

  write_secure-Stored :
      (path : Bytes) (text : Bytes) (w : W) → Stored path text w (write_secure os path text w)
  unfolding write_secure secure_flags
  write_secure-Stored path text w =
      on_opened-Stored path text w (os.open_file secure_flags owner_only path w)
        (λ f o. (
          laws.open_refuses_link secure_flags owner_only path w f refl o,
          laws.open_truncates secure_flags owner_only path w f refl o,
          laws.open_holds secure_flags owner_only path w f o,
        ))
        (λ e o. laws.failed_open_holds secure_flags owner_only path w e o)

  -- What a save of these contents has come to.
  pub data Saved (files : Files W) (path : Bytes) (w : W)
      : Option CassetteFile → Option Error × W → Type 0 where
    nothing : Saved files path w none (none, w)
    unencoded :
        (c : CassetteFile) (e : Error)
        → files.marshal c ≡ err e
        → Saved files path w (some c) (some e, w)
    stored :
        (c : CassetteFile) (text : Bytes) (r : Option Error × W)
        → files.marshal c ≡ ok text
        → Stored path text w r
        → Saved files path w (some c) r

  module _ (files : Files W) (path : Bytes) (w : W) where
    on_marshalled-Saved :
        (c : CassetteFile) (m : Fallible Bytes)
        → files.marshal c ≡ m
        → Saved files path w (some c) (on_marshalled (secure_files os files) path m w)
    unfolding on_marshalled secure_files
    on_marshalled-Saved c (err e) m = unencoded c e m
    on_marshalled-Saved c (ok text) m = stored c text _ m (write_secure-Stored path text w)

    write_cassette-Saved :
        (c : Option CassetteFile)
        → Saved files path w c (write_cassette (secure_files os files) path c w)
    unfolding write_cassette secure_files
    write_cassette-Saved none = nothing
    write_cassette-Saved (some c) = on_marshalled-Saved c (files.marshal c) refl

    -- A save on Unix writes nothing through a symbolic link and leaves no descriptor open. It succeeds
    -- with the whole text of the cassette in a file that only its owner can read, or fails with nothing
    -- opened, with the file empty, or with the file readable by its owner only. A replay saves nothing,
    -- and a cassette that has no text fails before anything is opened. The system is taken to open no
    -- link where O_NOFOLLOW is given, to empty the file where O_TRUNC is, to set the mode that it is
    -- asked for and to write all of a text if it reports no error; a chmod and a close leave the text,
    -- and a write and a close the mode.
    pub save_to-Saved :
        {V : Type 0} (r : RecordReplayRunner V)
        → Saved files path w (save r) (save_to (secure_files os files) path r w)
    unfolding save_to
    save_to-Saved r = write_cassette-Saved (save r)
