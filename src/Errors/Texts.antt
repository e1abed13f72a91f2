-- ===== src/Errors/Texts.antt =====
-- errors.go: the texts of the error types. `strings.TrimSpace` and the verbs of package fmt are parameters.
use processkit_go.Prelude.{
  ℤ, pos, ℕ, Option, none, some, List, [], ◌∷◌, ◌++◌, Bytes, codes, if◌then◌else◌, length,
}
use processkit_go.Outcome.{has_timed_out, signal_of, code_of}
use processkit_go.Errors.{
  Error, exit_error, cancel_error, not_found_error, start_error, not_ready_error,
  resource_limit_error, cassette_miss_error, sentinel, errno, wrapped, other, Cause, nil, cause,
  ExitError, ContextError, canceled, deadline_exceeded, Sentinel, err_cancelled, err_timeout,
  err_unsupported, err_not_ready, err_resource_limit, err_not_found, err_start, err_too_few_stages,
  err_group_closed, err_stream_not_enabled, err_cassette_miss, context_canceled,
  context_deadline_exceeded, exec_err_not_found, sys_err_unsupported,
}
use processkit_go.Errors.Render.{preview, sanitize, quote_program, plural}

pub record Fmt : Type 0 where
  pub trim_space : Bytes → Bytes
  pub show_int : ℤ → Bytes
  pub show_duration : ℤ → Bytes
  pub show_errno : ℕ → Bytes
  pub show_quoted : Bytes → Bytes
  pub show_list : List Bytes → Bytes

unfoldable pub sentinel_text : Sentinel → Bytes
sentinel_text err_cancelled = codes "processkit: run cancelled"
sentinel_text err_timeout = codes "processkit: run timed out"
sentinel_text err_unsupported = codes "processkit: operation not supported on this platform"
sentinel_text err_not_ready = codes "processkit: readiness probe did not pass"
sentinel_text err_resource_limit = codes "processkit: resource limit could not be enforced"
sentinel_text err_not_found = codes "processkit: program not found"
sentinel_text err_start = codes "processkit: failed to start the process"
sentinel_text err_too_few_stages = codes "processkit: a pipeline needs at least two stages"
sentinel_text err_group_closed = codes "processkit: Start on a closed group"
sentinel_text err_stream_not_enabled =
    codes "processkit: WaitForLine requires Group.Start with StreamLines()"
sentinel_text err_cassette_miss = codes "processkittest: no cassette entry matches the command"
sentinel_text context_canceled = codes "context canceled"
sentinel_text context_deadline_exceeded = codes "context deadline exceeded"
sentinel_text exec_err_not_found = codes "executable file not found in $PATH"
sentinel_text sys_err_unsupported = codes "sys: operation not supported on this platform"

-- The captured stream that a diagnostic shows.
unfoldable pub or_stream : Bytes → Bytes → Bytes
or_stream [] stdout = stdout
or_stream (c ∷ stderr) stdout = c ∷ stderr

unfoldable pub shown : Bytes → Bytes
shown [] = []
shown (c ∷ s) = sanitize (preview (c ∷ s))

abbrev pub processkit : Bytes
processkit = codes "processkit: "

module _ (fmt : Fmt) where
  unfoldable pub diagnostic : Bytes → Bytes → Bytes
  unfolding or_stream shown
  diagnostic stderr stdout = shown (or_stream (fmt.trim_space stderr) (fmt.trim_space stdout))

  -- How the program ended.
  unfoldable pub ending : Option ℤ → Option ℤ → Bytes
  ending (some s) code = codes " killed by signal " ++ fmt.show_int s
  ending none (some c) = codes " exited with code " ++ fmt.show_int c
  ending none none = codes " terminated abnormally"

  abbrev pub after_colon : Bytes → Bytes
  after_colon [] = []
  after_colon (c ∷ d) = codes ": " ++ (c ∷ d)

  unfoldable pub exit_text : ExitError → Bytes
  unfolding ending diagnostic
  exit_text e =
      processkit
      ++ (quote_program e.program
          ++ ((if has_timed_out e.outcome
                then codes " timed out"
                else ending (signal_of e.outcome) (code_of e.outcome))
              ++ after_colon (diagnostic e.stderr e.stdout)))

  unfoldable pub cancel_reason : Option ContextError → Bytes
  cancel_reason (some deadline_exceeded) = codes "context deadline exceeded"
  cancel_reason (some canceled) = codes "cancelled"
  cancel_reason none = codes "cancelled"

  unfoldable pub not_found_text : Bytes → List Bytes → Bytes
  not_found_text program [] = processkit ++ (quote_program program ++ codes " not found")
  not_found_text program (d ∷ ds) =
      processkit
      ++ (quote_program program
          ++ (codes " not found on PATH (searched "
              ++ (fmt.show_int (pos (length (d ∷ ds)))
                  ++ (codes " director"
                      ++ (plural (length (d ∷ ds)) (codes "y") (codes "ies") ++ codes ")")))))

  unfoldable pub limit_text : Bytes → Bytes → Bytes
  limit_text [] reason = codes "processkit: could not enforce resource limits: " ++ sanitize reason
  limit_text (c ∷ limit) reason =
      codes "processkit: could not enforce "
      ++ ((c ∷ limit) ++ (codes " limit: " ++ sanitize reason))

  abbrev pub not_ready_text : Bytes → Bytes → ℤ → Bytes
  not_ready_text program probe timeout =
      processkit
      ++ (quote_program program
          ++ (codes " not ready ("
              ++ (probe ++ (codes " probe) after " ++ fmt.show_duration timeout))))

  -- The methods `Error`.
  unfoldable mutual
    pub error_text : Error → Bytes
    error_text (exit_error e) = exit_text e
    error_text (cancel_error program c) =
        processkit ++ (quote_program program ++ (codes " " ++ cancel_reason c))
    error_text (not_found_error program searched) = not_found_text program searched
    error_text (start_error program e) =
        codes "processkit: failed to start "
        ++ (quote_program program ++ (codes ": " ++ error_text e))
    error_text (not_ready_error program probe timeout c) =
        not_ready_text program probe timeout ++ cause_text c
    error_text (resource_limit_error limit reason c) = limit_text limit reason
    error_text (cassette_miss_error program args dir) =
        codes "processkittest: no cassette entry for "
        ++ (fmt.show_quoted program
            ++ (codes " (args "
                ++ (fmt.show_list args
                    ++ (codes ", dir "
                        ++ (fmt.show_quoted dir
                            ++ codes ") — record one, or check program/args/dir")))))
    error_text (sentinel s) = sentinel_text s
    error_text (errno n) = fmt.show_errno n
    error_text (wrapped text e) = text ++ (codes ": " ++ error_text e)
    error_text (other text) = text

    pub cause_text : Cause → Bytes
    cause_text nil = []
    cause_text (cause e) = codes ": " ++ error_text e
