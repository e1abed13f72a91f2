-- ===== src/Testkit/Cassette/RoundTrip.antt =====
-- Recording and then replaying a session, processkittest/cassette.go.
use processkit_go.Prelude.{
  leb, false, Option, none, some, List, [], ◌∷◌, ◌≡◌, refl, sym, ap, ◌∙◌, arith, length, drop,
}
use processkit_go.Outcome.{timed_out}
use processkit_go.Errors.{Fallible, ok, ◌>>=◌}
use processkit_go.Result.{Invocation, Result, new_result}
use processkit_go.World.{Runner}
use processkit_go.Testkit.Cassette.{
  Entry, Key, key_of, key_eq, entry_of, outcome_of, ReplaySlot, play, Slots, replay,
}
use processkit_go.Testkit.Cassette.Entries.{
  key_eq_refl, IsRecordable, validate_outcome-entry_of, outcome_of-entry_of,
}
use processkit_go.Testkit.Cassette.Slots.{
  only, Holds, absent, present, HoldsAll, drop-cons, Holds-put, AllValid,
}

-- A session: what was asked, and what was answered.
abbrev pub Session : Type 0
Session = List (Invocation × Result)

abbrev pub entries_of : Session → List Entry
entries_of [] = []
entries_of ((inv, res) ∷ rest) = entry_of inv res ∷ entries_of rest

abbrev pub asked : Session → List Invocation
asked [] = []
asked ((inv, res) ∷ rest) = inv ∷ asked rest

-- What the replay answers: the outcome and the streams of the recorded result.
abbrev pub replayed : Session → List (Fallible Result)
replayed [] = []
replayed ((inv, res) ∷ rest) = ok (new_result inv res.outcome res.stdout res.stderr) ∷ replayed rest

-- The runs of a runner one after the other.
abbrev pub run_all : {W : Type 0} → Runner W → List Invocation → W → List (Fallible Result) × W
run_all runner [] w = ([], w)
run_all runner (inv ∷ invs) w =
    let (res, w') = runner inv w in let (rest, w'') = run_all runner invs w' in (res ∷ rest, w'')

-- Every run of the session reads no standard input and gets its recordable answer from `inner`.
abbrev pub Answered : {W : Type 0} → Runner W → Session → W → Type 0
Answered inner [] w = Unit
Answered inner ((inv, res) ∷ rest) w =
    ((inner inv w).0 ≡ ok res)
    × (inv.stdin ≡ none)
    × IsRecordable res.outcome
    × Answered inner rest (inner inv w).1

-- A slot with an entry left plays it and has the rest left.
play-left :
    (d : Entry) (s : ReplaySlot) (e : Entry) (es : List Entry)
    → drop s.next s.entries ≡ e ∷ es
    → ((play d s).0 ≡ e) × Holds (some (play d s).1) es
unfolding play
play-left d s e es h =
    let (low, at, rest) = drop-cons s.next s.entries d e es h in
    let more : leb (length s.entries) s.next ≡ false = ground arith in
    rw (more, play) (at, present _ low rest)

key_of_run : Invocation → Key
key_of_run inv = key_of inv.program inv.args inv.dir

module _ (inv : Invocation) (res : Result) (es : List Entry) where
  only_here :
      only (key_of_run inv) (entry_of inv res ∷ es) ≡ entry_of inv res ∷ only (key_of_run inv) es
  unfolding key_of_run entry_of
  only_here = rw (key_eq_refl (key_of inv.program inv.args inv.dir)) refl

  only_other :
      (j : Key) → key_eq (key_of_run inv) j ≡ false → only j es ≡ only j (entry_of inv res ∷ es)
  unfolding key_of_run entry_of
  only_other j e = rw e refl

  served :
      IsRecordable res.outcome
      → (outcome_of (entry_of inv res) >>= λ o.
          ok (new_result inv o (entry_of inv res).stdout (entry_of inv res).stderr))
        ≡ ok (new_result inv res.outcome res.stdout res.stderr)
  unfolding entry_of
  served recordable =
      ap (λ r. r >>= λ o. ok (new_result inv o (entry_of inv res).stdout (entry_of inv res).stderr))
        (outcome_of-entry_of inv res recordable)

-- One replayed run: the first entry left of its key answers, and is gone.
replay-left :
    (inv : Invocation) (res : Result) (slots : Slots) (es : List Entry)
    → IsRecordable res.outcome
    → HoldsAll slots (entry_of inv res ∷ es)
    → ((replay inv slots).0 ≡ ok (new_result inv res.outcome res.stdout res.stderr))
      × HoldsAll (replay inv slots).1 es
unfolding replay key_of_run
replay-left inv res slots es recordable h =
    go (slots (key_of_run inv)) (only (key_of_run inv) (entry_of inv res ∷ es)) refl refl
      (h (key_of_run inv))
  where
    go :
        (o : Option ReplaySlot) (l : List Entry)
        → slots (key_of_run inv) ≡ o
        → only (key_of_run inv) (entry_of inv res ∷ es) ≡ l
        → Holds o l
        → ((replay inv slots).0 ≡ ok (new_result inv res.outcome res.stdout res.stderr))
          × HoldsAll (replay inv slots).1 es
    go none l e f absent = cc (sym (only_here inv res es) ∙ f)
    go (some s) l e f (present _ low left) =
        let (plays, holds) =
          play-left (entry_of inv (new_result inv timed_out [] [])) s (entry_of inv res)
            (only (key_of_run inv) es) (left ∙ sym f ∙ only_here inv res es) in
        rw (e, replay)
          (
            rw plays (served inv res es recordable),
            Holds-put (key_of_run inv) _ slots (entry_of inv res ∷ es) es (λ j _. h j)
                (only_other inv res es) holds,
          )

pub replay_all-session :
    (session : Session) (slots : Slots) {W : Type 0} (inner : Runner W) (w : W)
    → Answered inner session w
    → HoldsAll slots (entries_of session)
    → (run_all replay (asked session) slots).0 ≡ replayed session
replay_all-session [] slots inner w a h = refl
replay_all-session ((inv, res) ∷ rest) slots inner w a h =
    let (now, left) = replay-left inv res slots (entries_of rest) a.2 h in
    let later = replay_all-session rest (replay inv slots).1 inner (inner inv w).1 a.3 left in
    (λ i. now i ∷ later i)

pub entries_of-AllValid :
    (session : Session) {W : Type 0} (inner : Runner W) (w : W)
    → Answered inner session w
    → AllValid (entries_of session)
entries_of-AllValid [] inner w a = tt
entries_of-AllValid ((inv, res) ∷ rest) inner w a =
    (validate_outcome-entry_of inv res a.2, entries_of-AllValid rest inner (inner inv w).1 a.3)
