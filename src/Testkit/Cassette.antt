-- ===== src/Testkit/Cassette.antt =====
-- processkittest/cassette.go: recording runs into entries, and serving the entries back.
-- The file is the list of its entries; Files models the reads and writes of the file, with the JSON text
-- as a parameter. For texts of valid UTF-8, which is what a cassette stores, the JSON of a match key is the
-- key's program, arguments and directory once more, so a key is these three. A Go map of slots is a
-- function of the key.
pub mod Files
pub mod Secure
pub mod Entries
pub mod Slots
pub mod RoundTrip
pub mod Session
use processkit_go.Prelude.{
  ℤ, ℕ, suc, ◌+◌, ◌-◌, leb, ◌==◌, Bool, true, false, ◌&&◌, Option, none, some, is_some, List, [],
  ◌∷◌, ◌++◌, Bytes, bytes_eq, if◌then◌else◌, length, get_or, codes, any,
}
use processkit_go.Outcome.{Outcome, code_of, signal_of, has_timed_out, exited, signalled, timed_out}
use processkit_go.Errors.{Error, cassette_miss_error, other, Fallible, ok, err, ◌>>=◌}
use processkit_go.Result.{Invocation, Result, new_result}
use processkit_go.World.{Runner}

pub record Entry : Type 0 where
  pub program : Bytes
  pub args : List Bytes
  pub dir : Bytes
  pub env_names : List Bytes
  pub stdout : Bytes
  pub stderr : Bytes
  pub code : Option ℤ
  pub timed_out : Bool
  pub signal : Option ℤ

pub record Key : Type 0 where
  pub program : Bytes
  pub args : List Bytes
  pub dir : Bytes

unfoldable pub args_eq : List Bytes → List Bytes → Bool
args_eq [] [] = true
args_eq (x ∷ xs) (y ∷ ys) = bytes_eq x y && args_eq xs ys
args_eq _ _ = false

unfoldable pub key_eq : Key → Key → Bool
key_eq a b = bytes_eq a.program b.program && (args_eq a.args b.args && bytes_eq a.dir b.dir)

unfoldable pub key_of : Bytes → List Bytes → Bytes → Key
key_of program args dir = record { program = program; args = args; dir = dir }

-- The name before the first '=' of "KEY=VALUE", if there is one.
unfoldable pub name_before_eq : Bytes → Option Bytes
name_before_eq [] = none
name_before_eq (c ∷ s) =
    if c == b'='
    then some []
    else elim (name_before_eq s) [ none ↦ none | some name ↦ some (c ∷ name) ]

-- `a <= b` in the order of `sort.Strings`, which compares bytes.
unfoldable pub bytes_le : Bytes → Bytes → Bool
bytes_le [] b = true
bytes_le (x ∷ a) [] = false
bytes_le (x ∷ a) (y ∷ b) = let rest = bytes_le a b in if x == y then rest else leb x y

-- `sort.Strings`.
unfoldable pub insert_sorted : Bytes → List Bytes → List Bytes
insert_sorted x [] = x ∷ []
insert_sorted x (y ∷ ys) =
    let later = insert_sorted x ys in if bytes_le x y then x ∷ y ∷ ys else y ∷ later

unfoldable pub sort_strings : List Bytes → List Bytes
sort_strings [] = []
sort_strings (x ∷ xs) = insert_sorted x (sort_strings xs)

-- The loop that collects the names, each once; an entry with no '=' is skipped.
unfoldable pub collect_names : List Bytes → List Bytes → List Bytes
collect_names names [] = names
collect_names names (kv ∷ env) =
    collect_names
      (elim (name_before_eq kv) [
        | none ↦ names
        | some name ↦ if any (bytes_eq name) names then names else names ++ name ∷ []
      ])
      env

-- `envNames`.
unfoldable pub env_names_of : Option (List Bytes) → List Bytes
env_names_of none = []
env_names_of (some env) = sort_strings (collect_names [] env)

unfoldable pub entry_of : Invocation → Result → Entry
entry_of inv res = record {
  program = inv.program;
  args = inv.args;
  dir = inv.dir;
  env_names = env_names_of inv.env;
  stdout = res.stdout;
  stderr = res.stderr;
  code = if has_timed_out res.outcome then none else code_of res.outcome;
  timed_out = has_timed_out res.outcome;
  signal =
      if has_timed_out res.outcome
      then none
      else elim (code_of res.outcome) [ some _ ↦ none | none ↦ signal_of res.outcome ];
}

abbrev count_if : Bool → ℕ
count_if true = 1
count_if false = 0

-- The error of an entry that does not set exactly one of code, timed_out and signal.
abbrev pub malformed : Error
malformed = other (codes "entry must set exactly one of code / timed_out / signal")

-- `validateOutcome`: whether there is no error.
unfoldable pub validate_outcome : Entry → Bool
validate_outcome e =
    (count_if (is_some e.code) + count_if e.timed_out + count_if (is_some e.signal)) == 1

-- `outcomeOf`.
unfoldable pub outcome_of : Entry → Fallible Outcome
outcome_of e =
    if validate_outcome e
    then (if e.timed_out
        then ok timed_out
        else elim e.code [ some c ↦ ok (exited c) | none ↦ ok (signalled e.signal) ])
    else err malformed

pub record ReplaySlot : Type 0 where
  pub entries : List Entry
  pub next : ℕ

-- `replaySlot.play` at a slot with an entry (the default is not read).
unfoldable pub play : Entry → ReplaySlot → Entry × ReplaySlot
play d s =
    if leb (length s.entries) s.next
    then (get_or s.entries (length s.entries - 1) d, s)
    else (get_or s.entries s.next d, record s { next = suc s.next })

abbrev pub Slots : Type 0
Slots = Key → Option ReplaySlot

unfoldable pub put : Key → ReplaySlot → Slots → Slots
put k s slots j = if key_eq k j then some s else slots j

abbrev pub no_slots : Slots
no_slots j = none

-- One round of the loading loop: the entry goes to the end of its key's slot.
unfoldable pub add_entry : Entry → Slots → Slots
add_entry e slots =
    let k = key_of e.program e.args e.dir in
    elim (slots k) [
      | none ↦ put k (record { entries = e ∷ []; next = 0 }) slots
      | some s ↦ put k (record s { entries = s.entries ++ e ∷ [] }) slots
    ]

unfoldable pub load_entries : List Entry → Slots → Fallible Slots
load_entries [] slots = ok slots
load_entries (e ∷ es) slots =
    let rest = load_entries es (add_entry e slots) in
    if validate_outcome e then rest else err malformed

abbrev pub cassette_version : ℕ
cassette_version = 1

pub record CassetteFile : Type 0 where
  pub version : ℕ
  pub entries : List Entry

abbrev pub bad_version : Error
bad_version = other (codes "version is not supported")

-- `Replay`, from the decoded file on.
unfoldable pub replay_file : CassetteFile → Fallible Slots
replay_file c =
    if c.version == cassette_version then load_entries c.entries no_slots else err bad_version

-- `RecordReplayRunner.replay`, with the slots after it.
unfoldable pub replay : Invocation → Slots → Fallible Result × Slots
replay inv slots =
    let k = key_of inv.program inv.args inv.dir in
    elim (slots k) [
      | none ↦ (err (cassette_miss_error inv.program inv.args inv.dir), slots)
      | some s ↦
          (let (e, s') = play (entry_of inv (new_result inv timed_out [] [])) s in
            (outcome_of e >>= λ o. ok (new_result inv o e.stdout e.stderr), put k s' slots))
    ]

-- `RecordReplayRunner.recordOne`; an error records nothing.
unfoldable pub record_one :
    {W : Type 0} → Runner W → Invocation → W × List Entry → Fallible Result × (W × List Entry)
record_one inner inv (w, rec) =
    let (res, w') = inner inv w in
    elim res [ err e ↦ (err e, (w', rec)) | ok r ↦ (ok r, (w', rec ++ entry_of inv r ∷ [])) ]

abbrev pub stdin_refused : Error
stdin_refused = other (codes "a cassette cannot record or replay with stdin")

pub data Mode : Type 0 where
  mode_record mode_replay : Mode

pub record RecordReplayRunner (W : Type 0) : Type 0 where
  pub mode : Mode
  pub inner_world : W
  pub rec : List Entry
  pub slots : Slots

-- `Record`.
unfoldable pub record_runner : {W : Type 0} → W → RecordReplayRunner W
record_runner w = record { mode = mode_record; inner_world = w; rec = []; slots = no_slots }

-- The runner that `Replay` returns for loaded slots. It has no inner runner to call.
unfoldable pub replay_runner : {W : Type 0} → W → Slots → RecordReplayRunner W
replay_runner w slots = record { mode = mode_replay; inner_world = w; rec = []; slots = slots }

abbrev by_mode :
    {W : Type 0}
    → Runner W
    → Mode
    → Invocation
    → RecordReplayRunner W
    → Fallible Result × RecordReplayRunner W
by_mode inner mode_replay inv r =
    let (res, slots') = replay inv r.slots in (res, record r { slots = slots' })
by_mode inner mode_record inv r =
    let (res, w') = record_one inner inv (r.inner_world, r.rec) in
    (res, record r { inner_world = w'.0; rec = w'.1 })

-- `RecordReplayRunner.Output`.
unfoldable pub output : {W : Type 0} → Runner W → Runner (RecordReplayRunner W)
output inner inv r =
    if is_some inv.stdin then (err stdin_refused, r) else by_mode inner r.mode inv r

-- `Save`, up to the encoding: what is written in record mode, and nothing in replay mode.
unfoldable pub save : {W : Type 0} → RecordReplayRunner W → Option CassetteFile
save r = elim r.mode [
  | mode_replay ↦ none
  | mode_record ↦ some (record { version = cassette_version; entries = r.rec })
]
