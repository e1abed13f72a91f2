-- ===== src/Probe/Lines.antt =====
-- probe.go: `WaitForLine`. The lines that the process prints to the end are a list, from the first that
-- the channel holds. `buffered` says, for each line that the channel held at entry, whether the
-- non-blocking `select` still finds the channel ready; the later `select`s are a list of choices.
use processkit_go.Prelude.{
  ℤ, Bool, true, false, Option, none, some, List, [], ◌∷◌, ◌++◌, Bytes, codes, All, if◌then◌else◌,
  length, replicate, ◌≡◌, refl, ap, sym, ◌∙◌, subst,
}
use processkit_go.Errors.{
  Error, ContextError, context_sentinel, sentinel, err_stream_not_enabled, not_ready_error, nil,
  Fallible, ok, err,
}
use processkit_go.Stream.{Line}
use processkit_go.Running.{RunningProcess}

pub data Choice : Type 0 where
  took_line timer_fired : Choice
  ctx_done : ContextError → Choice

module _ (program : Bytes) (within : ℤ) (matches : Bytes → Bool) where
  abbrev pub Answer : Type 0
  Answer = Option (Fallible Bytes × List Line)

  abbrev pub not_ready : List Line → Answer
  not_ready rest = some (err (not_ready_error program (codes "line") within nil), rest)

  -- The test of a line that is received: the answer, or what the later lines give.
  unfoldable pub on_line : Line → List Line → Answer → Answer
  on_line l rest later = if matches l.text then some (ok l.text, rest) else later

  -- The loop of blocking `select`s; `none` where the choices end first.
  unfoldable pub select_lines : List Choice → List Line → Answer
  unfolding on_line
  select_lines [] lines = none
  select_lines (took_line ∷ choices) [] = not_ready []
  select_lines (took_line ∷ choices) (l ∷ lines) = on_line l lines (select_lines choices lines)
  select_lines (timer_fired ∷ choices) lines = not_ready lines
  select_lines (ctx_done c ∷ choices) lines = some (err (sentinel (context_sentinel c)), lines)

  -- The scan of the lines that were buffered at entry.
  unfoldable pub scan_buffered : List Bool → List Choice → List Line → Answer
  unfolding on_line select_lines
  scan_buffered [] choices lines = select_lines choices lines
  scan_buffered (false ∷ flags) choices lines = select_lines choices lines
  scan_buffered (true ∷ flags) choices [] = not_ready []
  scan_buffered (true ∷ flags) choices (l ∷ lines) =
      on_line l lines (scan_buffered flags choices lines)

  -- A search from the first line on: the lines that it consumed did not match, but for the answer.
  pub data Searched : List Line → Fallible Bytes → List Line → Type 0 where
    passed :
        (l : Line) (lines : List Line) (r : Fallible Bytes) (rest : List Line)
        → matches l.text ≡ false
        → Searched lines r rest
        → Searched (l ∷ lines) r rest
    found :
        (l : Line) (rest : List Line) → matches l.text ≡ true → Searched (l ∷ rest) (ok l.text) rest
    gave_up : (e : Error) (rest : List Line) → Searched rest (err e) rest

  abbrev AllSearched : List Line → Answer → Type 0
  AllSearched lines none = Unit
  AllSearched lines (some (r, rest)) = Searched lines r rest

  on_line-Searched :
      (l : Line) (lines : List Line) (later : Answer)
      → AllSearched lines later
      → AllSearched (l ∷ lines) (on_line l lines later)
  unfolding on_line
  on_line-Searched l lines later search = go (matches l.text) refl
    where
      miss : (a : Answer) → matches l.text ≡ false → AllSearched lines a → AllSearched (l ∷ lines) a
      miss none e search = tt
      miss (some (r, rest)) e search = passed l lines r rest e search

      go :
          (b : Bool)
          → matches l.text ≡ b
          → AllSearched (l ∷ lines) (if b then some (ok l.text, lines) else later)
      go true e = found l lines e
      go false e = miss later e search

  select_lines-Searched :
      (choices : List Choice) (lines : List Line) → AllSearched lines (select_lines choices lines)
  unfolding select_lines
  select_lines-Searched [] lines = tt
  select_lines-Searched (took_line ∷ choices) [] = gave_up _ []
  select_lines-Searched (took_line ∷ choices) (l ∷ lines) =
      on_line-Searched l lines _ (select_lines-Searched choices lines)
  select_lines-Searched (timer_fired ∷ choices) lines = gave_up _ lines
  select_lines-Searched (ctx_done c ∷ choices) lines = gave_up _ lines

  scan_buffered-Searched :
      (flags : List Bool) (choices : List Choice) (lines : List Line)
      → AllSearched lines (scan_buffered flags choices lines)
  unfolding scan_buffered
  scan_buffered-Searched [] choices lines = select_lines-Searched choices lines
  scan_buffered-Searched (false ∷ flags) choices lines = select_lines-Searched choices lines
  scan_buffered-Searched (true ∷ flags) choices [] = gave_up _ []
  scan_buffered-Searched (true ∷ flags) choices (l ∷ lines) =
      on_line-Searched l lines _ (scan_buffered-Searched flags choices lines)

  on_line_hit :
      (l : Line) (rest : List Line) (later : Answer)
      → matches l.text ≡ true
      → on_line l rest later ≡ some (ok l.text, rest)
  unfolding on_line
  on_line_hit l rest later hit = ap (λ b. if b then some (ok l.text, rest) else later) hit

  on_line_miss :
      (l : Line) (rest : List Line) (later : Answer)
      → matches l.text ≡ false
      → on_line l rest later ≡ later
  unfolding on_line
  on_line_miss l rest later miss = ap (λ b. if b then some (ok l.text, rest) else later) miss

  -- Where the match stands among the lines buffered at entry, the later choices are not reached.
  scan_buffered-found :
      (before rest : List Line) (l : Line) (flags : List Bool) (choices : List Choice)
      → All (λ b. matches b.text ≡ false) before
      → matches l.text ≡ true
      → scan_buffered
          (replicate (length before) true ++ (true ∷ flags))
          choices
          (before ++ (l ∷ rest))
        ≡ some (ok l.text, rest)
  unfolding scan_buffered
  scan_buffered-found [] rest l flags choices misses hit = on_line_hit l rest _ hit
  scan_buffered-found (b ∷ before) rest l flags choices misses hit =
      on_line_miss b _ _ misses.0 ∙ scan_buffered-found before rest l flags choices misses.1 hit

-- `WaitForLine`.
unfoldable pub wait_for_line :
    RunningProcess
    → ℤ
    → (Bytes → Bool)
    → List Bool
    → List Choice
    → List Line
    → Option (Fallible Bytes × List Line)
wait_for_line p within matches flags choices lines =
    if p.has_lines
    then scan_buffered p.program within matches flags choices lines
    else some (err (sentinel err_stream_not_enabled), lines)

-- Of a process that streams its lines, `WaitForLine` returns the first line that matches and leaves the
-- lines after it to be read; whatever it answers, no line that it consumed before matched.
pub wait_for_line-Searched :
    (p : RunningProcess) (within : ℤ) (matches : Bytes → Bool) (flags : List Bool)
    (choices : List Choice) (lines rest : List Line) (r : Fallible Bytes)
    → p.has_lines ≡ true
    → wait_for_line p within matches flags choices lines ≡ some (r, rest)
    → Searched p.program within matches lines r rest
unfolding wait_for_line
wait_for_line-Searched p within matches flags choices lines rest r streams h =
    subst (AllSearched p.program within matches lines)
      (sym (
          ap
            (λ b.
              if b
              then scan_buffered p.program within matches flags choices lines
              else some (err (sentinel err_stream_not_enabled), lines))
            streams)
        ∙ h)
      (scan_buffered-Searched p.program within matches flags choices lines)

-- A line that matches and that the channel held at entry is returned whatever the timer and the context
-- do, and with any deadline, while the channel stays ready for it and for those before it.
pub wait_for_line_buffered :
    (p : RunningProcess) (within : ℤ) (matches : Bytes → Bool) (before rest : List Line) (l : Line)
    (flags : List Bool) (choices : List Choice)
    → p.has_lines ≡ true
    → All (λ b. matches b.text ≡ false) before
    → matches l.text ≡ true
    → wait_for_line p within matches
        (replicate (length before) true ++ (true ∷ flags))
        choices
        (before ++ (l ∷ rest))
      ≡ some (ok l.text, rest)
unfolding wait_for_line
wait_for_line_buffered p within matches before rest l flags choices streams misses hit =
    ap
      (λ b.
        if b
        then scan_buffered p.program within matches
            (replicate (length before) true ++ (true ∷ flags)) choices (before ++ (l ∷ rest))
        else some (err (sentinel err_stream_not_enabled), before ++ (l ∷ rest)))
      streams
    ∙ scan_buffered-found p.program within matches before rest l flags choices misses hit
