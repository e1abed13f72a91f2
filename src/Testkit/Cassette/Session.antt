-- ===== src/Testkit/Cassette/Session.antt =====
-- A session recorded to a cassette and replayed from it, processkittest/cassette.go.
use processkit_go.Prelude.{
  false, is_some, none, some, Bytes, All, length, ltb, ◌≤◌, arith, List, [], ◌∷◌, ◌++◌, append-nil,
  append_assoc, ◌≡◌, refl, sym, ap, ◌∙◌,
}
use processkit_go.Errors.{Fallible, ok, err}
use processkit_go.Errors.Render.{runes, encode_all}
use processkit_go.Result.{Invocation, Result}
use processkit_go.World.{Runner}
use processkit_go.Testkit.Cassette.{
  Entry, entry_of, Slots, no_slots, CassetteFile, cassette_version, replay_file, replay,
  mode_record, record_one, RecordReplayRunner, record_runner, replay_runner, output, save,
}
use processkit_go.Testkit.Cassette.Files.{
  Files, max_cassette_bytes, is_too_large, on_unmarshalled, on_read, replay_path, on_marshalled,
  write_cassette, save_to,
}
use processkit_go.Testkit.Cassette.Slots.{absent, load_entries-Holds}
use processkit_go.Testkit.Cassette.RoundTrip.{
  Session, entries_of, asked, replayed, run_all, Answered, replay_all-session, entries_of-AllValid,
}

module _ {W : Type 0} (inner : Runner W) where
  abbrev Recorder : W → List Entry → RecordReplayRunner W
  Recorder w rec = record { mode = mode_record; inner_world = w; rec = rec; slots = no_slots }

  output-record :
      (inv : Invocation) (res : Result) (w : W) (rec : List Entry)
      → (inner inv w).0 ≡ ok res
      → inv.stdin ≡ none
      → (output inner inv (Recorder w rec)).1
        ≡ Recorder (inner inv w).1 (rec ++ entry_of inv res ∷ [])
  unfolding output record_one
  output-record inv res w rec e n =
      let unfed : is_some inv.stdin ≡ false = ap is_some n in
      rw (unfed, output) (rw (e, record_one) refl)

  recorded :
      (session : Session) (w : W) (rec : List Entry)
      → Answered inner session w
      → (w' : W) × ((run_all (output inner) (asked session) (Recorder w rec)).1
          ≡ Recorder w' (rec ++ entries_of session))
  recorded [] w rec a = (w, ap (Recorder w) (sym (append-nil rec)))
  recorded ((inv, res) ∷ rest) w rec a =
      let (w', e) = recorded rest (inner inv w).1 (rec ++ entry_of inv res ∷ []) a.3 in
      (
        w',
        ap (λ r. (run_all (output inner) (asked rest) r).1) (output-record inv res w rec a.0 a.1)
            ∙ e
            ∙ ap (Recorder w') (append_assoc rec (entry_of inv res ∷ []) (entries_of rest)),
      )

  output-replay :
      (inv : Invocation) (w : W) (slots : Slots)
      → inv.stdin ≡ none
      → output inner inv (replay_runner w slots)
        ≡ ((replay inv slots).0, replay_runner w (replay inv slots).1)
  unfolding output replay_runner
  output-replay inv w slots n =
      let unfed : is_some inv.stdin ≡ false = ap is_some n in rw (unfed, output) refl

  run_all-replay :
      (session : Session) (v w : W) (slots : Slots)
      → Answered inner session v
      → (run_all (output inner) (asked session) (replay_runner w slots)).0
        ≡ (run_all replay (asked session) slots).0
  run_all-replay [] v w slots a = refl
  run_all-replay ((inv, res) ∷ rest) v w slots a = rw (output-replay inv w slots a.1) (
      ap (λ l. (replay inv slots).0 ∷ l)
        (run_all-replay rest (inner inv v).1 w (replay inv slots).1 a.3))

abbrev pub file_of : Session → CassetteFile
file_of session = record { version = cassette_version; entries = entries_of session }

session-loads :
    {W : Type 0} (inner : Runner W) (session : Session) (w : W)
    → Answered inner session w
    → (slots : Slots) × (save (run_all (output inner) (asked session) (record_runner w)).1
        ≡ some (file_of session))
      × (replay_file (file_of session) ≡ ok slots)
      × ((w' : W)
          → (run_all (output inner) (asked session) (replay_runner w' slots)).0 ≡ replayed session)
unfolding record_runner replay_file
session-loads inner session w a =
    let (v, e) = recorded inner session w [] a in
    let (slots, loaded, holds) =
      load_entries-Holds (entries_of session) no_slots [] (entries_of-AllValid session inner w a)
        (λ k. absent) in
    (
      slots,
      ap save e ∙ saved v,
      loaded,
      λ w'.
          run_all-replay inner session w w' slots a
          ∙ replay_all-session session slots inner w a holds,
    )
  where
    saved : (v : _) → save (Recorder inner v (entries_of session)) ≡ some (file_of session)
    saved v = unfold save in refl

-- A text that is valid UTF-8: to read its runes and to write them gives it again.
abbrev pub IsText : Bytes → Type 0
IsText text = encode_all (runes text) ≡ text

pub record IsTextEntry (e : Entry) : Type 0 where
  pub program : IsText e.program
  pub args : All IsText e.args
  pub dir : IsText e.dir
  pub env_names : All IsText e.env_names
  pub stdout : IsText e.stdout
  pub stderr : IsText e.stderr

-- What encoding/json and the files do with a cassette: the JSON of valid texts reads back as what was
-- written, and after a write that reports no error the file has the text and its length.
pub record Storing {V : Type 0} (files : Files V) (path : Bytes) (c : CassetteFile) : Type 0 where
  pub json :
      (text : Bytes)
      → All IsTextEntry c.entries
      → files.marshal c ≡ ok text
      → files.unmarshal text ≡ ok c
  pub sized :
      (text : Bytes) (d : V)
      → (files.write_file_secure path text d).0 ≡ none
      → (files.stat_size path (files.write_file_secure path text d).1).0 ≡ some (length text)
  pub kept :
      (text : Bytes) (d : V)
      → (files.write_file_secure path text d).0 ≡ none
      → (files.read_file path (files.stat_size path (files.write_file_secure path text d).1).1).0
        ≡ ok text

module _ {V : Type 0} (files : Files V) (path : Bytes) where
  on_read-ok :
      (text : Bytes) (c : CassetteFile) (r : Fallible Bytes × V)
      → r.0 ≡ ok text
      → files.unmarshal text ≡ ok c
      → length text ≤ max_cassette_bytes
      → (on_read files r).0 ≡ replay_file c
  unfolding on_read is_too_large on_unmarshalled
  on_read-ok text c (err e, d) h u small = absurd (ground arith)
  on_read-ok text c (ok t, d) h u small =
      let same : t ≡ text = ground arith in
      let fits : ltb max_cassette_bytes (length t) ≡ false = rw same (ground arith) in
      rw (fits, ap files.unmarshal same ∙ u) refl

  replay_path-ok :
      (text : Bytes) (c : CassetteFile) (d : V)
      → (files.stat_size path d).0 ≡ some (length text)
      → (files.read_file path (files.stat_size path d).1).0 ≡ ok text
      → files.unmarshal text ≡ ok c
      → length text ≤ max_cassette_bytes
      → (replay_path files path d).0 ≡ replay_file c
  unfolding replay_path is_too_large
  replay_path-ok text c d size read u small =
      let fits : is_too_large (files.stat_size path d).0 ≡ false =
        ap is_too_large size ∙ ground arith in
      rw fits (on_read-ok text c (files.read_file path (files.stat_size path d).1) read u small)

  save_to-written :
      {W : Type 0} (r : RecordReplayRunner W) (c : CassetteFile) (text : Bytes) (d : V)
      → save r ≡ some c
      → files.marshal c ≡ ok text
      → save_to files path r d ≡ files.write_file_secure path text d
  unfolding save_to write_cassette on_marshalled
  save_to-written r c text d saved encoded = rw (saved, encoded) refl

-- A session of runs without standard input, each with a result whose outcome is an exit code, a signal
-- with its number or a timeout, can be saved to a file and loaded from it, and asking the same again in
-- the same order answers each run with the outcome and the output streams that were recorded for it,
-- however the match keys repeat, in whatever state the inner runner is. The texts of the session are
-- valid UTF-8, its JSON has at most 64 MiB, and the write of it reports no error.
pub record-replay :
    {V W : Type 0} (files : Files V) (path : Bytes) (inner : Runner W) (session : Session) (w : W)
    (d : V) (text : Bytes)
    → Storing files path (file_of session)
    → Answered inner session w
    → All IsTextEntry (entries_of session)
    → files.marshal (file_of session) ≡ ok text
    → length text ≤ max_cassette_bytes
    → (files.write_file_secure path text d).0 ≡ none
    → (let saved =
          save_to files path (run_all (output inner) (asked session) (record_runner w)).1 d in
        (saved.0 ≡ none)
        × ((slots : Slots) × ((replay_path files path saved.1).0 ≡ ok slots)
            × ((w' : W)
                → (run_all (output inner) (asked session) (replay_runner w' slots)).0
                  ≡ replayed session)))
record-replay files path inner session w d text storing a valid encoded small done =
    let (slots, saved, loaded, replays) = session-loads inner session w a in
    let wrote = save_to-written files path _ (file_of session) text d saved encoded in
    (
      ap (λ r. r.0) wrote ∙ done,
      (
        slots,
        ap (λ r. (replay_path files path r.1).0) wrote
            ∙ (replay_path-ok files path text (file_of session) _ (storing.sized text d done)
                  (storing.kept text d done) (storing.json text valid encoded) small
                ∙ loaded),
        replays,
      ),
    )
