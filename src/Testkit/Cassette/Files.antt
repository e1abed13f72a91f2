-- ===== src/Testkit/Cassette/Files.antt =====
-- processkittest/cassette.go: `Replay` and `Save` through a file. `os.Stat`, `os.ReadFile`, encoding/json
-- and `writeFileSecure` are parameters.
use processkit_go.Prelude.{
  ℕ, ltb, Bool, false, Option, none, some, Bytes, codes, if◌then◌else◌, length, ◌*◌, ◌^◌,
}
use processkit_go.Errors.{Error, other, wrapped, Fallible, ok, err}
use processkit_go.Testkit.Cassette.{CassetteFile, Slots, replay_file, RecordReplayRunner, save}

pub record Files (W : Type 0) : Type 0 where
  -- The size of a file, if it can be read.
  pub stat_size : Bytes → W → Option ℕ × W
  pub read_file : Bytes → W → Fallible Bytes × W
  pub write_file_secure : Bytes → Bytes → W → Option Error × W
  pub unmarshal : Bytes → Fallible CassetteFile
  pub marshal : CassetteFile → Fallible Bytes

-- 64 MiB.
abbrev pub max_cassette_bytes : ℕ
max_cassette_bytes = 64 * 2 ^ 20

abbrev pub too_large : Error
too_large = other (codes "processkittest: cassette is larger than 67108864 bytes")

unfoldable pub is_too_large : Option ℕ → Bool
is_too_large none = false
is_too_large (some size) = ltb max_cassette_bytes size

unfoldable pub on_unmarshalled : Fallible CassetteFile → Fallible Slots
on_unmarshalled (err e) = err (wrapped (codes "processkittest: cassette is not valid JSON") e)
on_unmarshalled (ok c) = replay_file c

module _ {W : Type 0} (files : Files W) where
  -- After `os.ReadFile`.
  unfoldable pub on_read : Fallible Bytes × W → Fallible Slots × W
  unfolding is_too_large on_unmarshalled
  on_read (err e, w) = (err e, w)
  on_read (ok text, w) = (
    if is_too_large (some (length text))
        then err too_large
        else on_unmarshalled (files.unmarshal text),
    w,
  )

  -- `Replay`, up to the runner over the slots.
  unfoldable pub replay_path : Bytes → W → Fallible Slots × W
  unfolding on_read is_too_large
  replay_path path w =
      let (size, w') = files.stat_size path w in
      if is_too_large size then (err too_large, w') else on_read (files.read_file path w')

  unfoldable pub on_marshalled : Bytes → Fallible Bytes → W → Option Error × W
  on_marshalled path (err e) w = (some e, w)
  on_marshalled path (ok text) w = files.write_file_secure path text w

  unfoldable pub write_cassette : Bytes → Option CassetteFile → W → Option Error × W
  unfolding on_marshalled
  write_cassette path none w = (none, w)
  write_cassette path (some c) w = on_marshalled path (files.marshal c) w

  -- `Save`.
  unfoldable pub save_to : {V : Type 0} → Bytes → RecordReplayRunner V → W → Option Error × W
  unfolding write_cassette
  save_to path r w = write_cassette path (save r) w
