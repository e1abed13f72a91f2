-- ===== src/Tests/Saves.antt =====
-- A save to a file system with one file and one link (processkittest/cassette_unix.go).
use processkit_go.Prelude.{
  pos, ℕ, zero, suc, true, false, none, [], Bytes, codes, bytes_eq, ◌≡◌, refl, arith, Bool, ◌&&◌,
  if◌then◌else◌,
}
use processkit_go.Errors.{Error, other, ok, err}
use processkit_go.Testkit.Cassette.{record_runner, save}
use processkit_go.Testkit.Cassette.Files.{Files, save_to}
use processkit_go.Testkit.Cassette.Secure.{
  FileOps, FileLaws, Saved, secure_files, secure_flags, save_to-Saved,
}

record Disk : Type 0 where
  mode : ℕ
  text : Bytes
  descriptors : ℕ

abbrev one_less : ℕ → ℕ
one_less zero = zero
one_less (suc n) = n

abbrev is_link : Bytes → Bool
is_link path = bytes_eq path (codes "link")

abbrev refused : Error
refused = other (codes "ELOOP")

abbrev disk_ops : FileOps Disk
disk_ops = record {
  open_file = λ flags new_mode path d. elim (is_link path && flags.no_follow) [
    | true ↦ (err refused, d)
    | false ↦ (
      ok (pos 3),
      record d { text = if flags.truncate then [] else d.text; descriptors = suc d.descriptors },
    )
  ];
  chmod = λ f mode d. (none, record d { mode = mode });
  write = λ f text d. (none, record d { text = text });
  close_file = λ f d. (none, record d { descriptors = one_less d.descriptors });
}

disk_laws : FileLaws disk_ops
disk_laws = record {
  mode_of = λ f d. d.mode;
  text_of = λ f d. d.text;
  is_link = λ path d. is_link path;
  held = λ d. d.descriptors;
  open_refuses_link = λ flags mode path w f n e. ground arith;
  open_truncates = λ flags mode path w f t e. ground arith;
  open_holds = λ flags mode path w f e. ground arith;
  failed_open_holds = λ flags mode path w f e. ground arith;
  chmod_sets = λ f mode w e. refl;
  chmod_keeps = λ f mode w. refl;
  chmod_holds = λ f mode w. refl;
  write_keeps = λ f text w. refl;
  write_fills = λ f text w e t. refl;
  write_holds = λ f text w. refl;
  close_keeps_mode = λ f w. refl;
  close_keeps_text = λ f w. refl;
  close_frees = λ f w h. ground arith;
}

abbrev files : Files Disk
files = record {
  stat_size = λ path d. (none, d);
  read_file = λ path d. (ok d.text, d);
  write_file_secure = λ path text d. (none, d);
  unmarshal = λ text. err refused;
  marshal = λ c. ok (codes "{}");
}

abbrev disk : Disk
disk = record { mode = 420; text = codes "old"; descriptors = 0 }

saved :
    save_to (secure_files disk_ops files) (codes "a.json") (record_runner tt) disk
    ≡ (none, record { mode = 384; text = codes "{}"; descriptors = 0 })
unfolding save_to secure_files secure_flags save record_runner bytes_eq
saved = refl

save_to-Saved_example :
    Saved disk_laws files
      (codes "a.json")
      disk
      (save (record_runner tt))
      (save_to (secure_files disk_ops files) (codes "a.json") (record_runner tt) disk)
save_to-Saved_example = save_to-Saved disk_laws files (codes "a.json") disk (record_runner tt)
