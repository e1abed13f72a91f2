-- ===== src/Tests/Doubles.antt =====
-- The test doubles at concrete inputs (processkittest).
use processkit_go.Prelude.{
  ℤ, pos, ℕ, true, false, none, some, All, length, arith, Bytes, [], ◌∷◌, bytes_eq, codes, ◌≡◌,
  refl,
}
use processkit_go.Outcome.{Outcome, exited}
use processkit_go.Errors.{ok}
use processkit_go.Testkit.Scripted.{Reply, Rule, replies_of, rule_matches, play, match_rules}
use processkit_go.Testkit.Scripted.Play.{played}
use processkit_go.Testkit.Cassette.{Slots, entry_of, output, record_runner, replay_runner}
use processkit_go.Testkit.Cassette.Entries.{exit}
use processkit_go.Testkit.Cassette.RoundTrip.{
  Session, entries_of, asked, replayed, run_all, Answered,
}
use processkit_go.Testkit.Cassette.Session.{file_of, IsTextEntry, Storing, record-replay}
use processkit_go.Testkit.Cassette.Files.{Files, replay_path, save_to}
use processkit_go.Errors.Render.{encode_all, encode}
use processkit_go.Tests.Samples.{exit_with, git_status, result_with, crashing}

abbrev reply : ℤ → Reply
reply code = record {
  outcome = exit_with code;
  stdout = [];
  stderr = [];
  failure = none;
  pending = false;
}

-- `git` fails once, then is well.
abbrev git_rule : Rule
git_rule = record {
  prefix = codes "git" ∷ [];
  predicate = none;
  first = reply (pos 1);
  more = reply (pos 0) ∷ [];
  cursor = 0;
}

abbrev jj_rule : Rule
jj_rule = record git_rule { prefix = codes "jj" ∷ [] }

last_repeats : (play (played 7 git_rule)).0 ≡ reply (pos 0)
unfolding play
last_repeats = refl

jj_passes : rule_matches jj_rule git_status ≡ false
unfolding rule_matches processkit_go.Testkit.Scripted.starts_with bytes_eq
jj_passes = refl

git_matches : rule_matches git_rule git_status ≡ true
unfolding rule_matches processkit_go.Testkit.Scripted.starts_with bytes_eq
git_matches = refl

-- The same command three times: it fails twice, then succeeds.
abbrev session : Session
session =
    (git_status, result_with (exit_with (pos 1)) [])
    ∷ (git_status, result_with (exit_with (pos 1)) [])
    ∷ (git_status, result_with (exit_with (pos 0)) [])
    ∷ []

session-Answered : Answered crashing session 2
unfolding exited
session-Answered = (
  refl,
  refl,
  exit (pos 1) refl,
  (refl, refl, exit (pos 1) refl, (refl, refl, exit (pos 0) refl, tt)),
)

entry-IsText : (o : Outcome) → IsTextEntry (entry_of git_status (result_with o []))
unfolding encode_all entry_of processkit_go.Errors.Render.runes
    processkit_go.Testkit.Cassette.env_names_of
entry-IsText o = record {
  program = refl;
  args = (refl, tt);
  dir = refl;
  env_names = tt;
  stdout = refl;
  stderr = refl;
}

session-IsText : All IsTextEntry (entries_of session)
session-IsText = (entry-IsText _, (entry-IsText _, (entry-IsText _, tt)))

-- A disk with one file, and a JSON package that knows one cassette.
abbrev files : Files Bytes
files = record {
  stat_size = λ path d. (some (length d), d);
  read_file = λ path d. (ok d, d);
  write_file_secure = λ path text d. (none, text);
  unmarshal = λ text. ok (file_of session);
  marshal = λ c. ok (codes "{}");
}

files-Storing : Storing files (codes "a.json") (file_of session)
files-Storing = record {
  json = λ text valid encoded. refl;
  sized = λ text d done. refl;
  kept = λ text d done. refl;
}

record-replay_example :
    (let saved =
        save_to files
          (codes "a.json")
          (run_all (output crashing) (asked session) (record_runner 2)).1
          [] in
      (saved.0 ≡ none)
      × ((slots : Slots) × ((replay_path files (codes "a.json") saved.1).0 ≡ ok slots)
          × ((w' : ℕ)
              → (run_all (output crashing) (asked session) (replay_runner w' slots)).0
                ≡ replayed session)))
record-replay_example =
    record-replay files (codes "a.json") crashing session 2 [] (codes "{}") files-Storing
      session-Answered session-IsText refl (omega arith) refl
