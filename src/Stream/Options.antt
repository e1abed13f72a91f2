-- ===== src/Stream/Options.antt =====
-- stream.go: the options of a start. A writer or a callback that is set is only seen to be set, and a nil
-- one is false. `WithStdin` and `WithDecoder` set what the model takes as parameters.
use processkit_go.Prelude.{ℤ, pos, Bool, true, false, List, [], ◌∷◌}
use processkit_go.Stream.{StartConfig, OverflowPolicy, overflow_block, resolve}

abbrev pub StartOption : Type 0
StartOption = StartConfig → StartConfig

unfoldable pub with_stdout : Bool → StartOption
with_stdout w c = record c { has_stdout_tee = w }

unfoldable pub with_stderr : Bool → StartOption
with_stderr w c = record c { has_stderr_tee = w }

unfoldable pub on_stdout_line : Bool → StartOption
on_stdout_line fn c = record c { has_on_stdout = fn }

unfoldable pub on_stderr_line : Bool → StartOption
on_stderr_line fn c = record c { has_on_stderr = fn }

unfoldable pub stream_lines_option : StartOption
stream_lines_option c = record c { stream_lines = true }

unfoldable pub buffer_lines_option : ℤ → StartOption
buffer_lines_option n c = record c { buffer_lines = n }

unfoldable pub on_overflow : OverflowPolicy → StartOption
on_overflow p c = record c { overflow = p }

unfoldable pub with_max_line_bytes : ℤ → StartOption
with_max_line_bytes n c = record c { max_line_bytes = n }

abbrev pub zero_config : StartConfig
zero_config = record {
  has_stdout_tee = false;
  has_stderr_tee = false;
  has_on_stdout = false;
  has_on_stderr = false;
  stream_lines = false;
  buffer_lines = pos 0;
  overflow = overflow_block;
  max_line_bytes = pos 0;
}

-- The options in order, from a configuration on.
unfoldable pub apply_options : List StartOption → StartConfig → StartConfig
apply_options [] c = c
apply_options (o ∷ os) c = apply_options os (o c)

-- The configuration of a start.
unfoldable pub configured : List StartOption → StartConfig
unfolding apply_options resolve
configured os = resolve (apply_options os zero_config)
