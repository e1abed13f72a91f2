-- ===== src/Group/Signals.antt =====
-- signal.go: the curated signals, and the raw ones.
use processkit_go.Prelude.{ℤ, pos, Bytes, codes}
use processkit_go.Group.{
  Signal, SigKind, sig_term, sig_kill, sig_int, sig_hup, sig_quit, sig_usr1, sig_usr2, sig_raw,
}

abbrev curated : Bytes → SigKind → Signal
curated name kind = record { name = name; kind = kind; raw = pos 0 }

abbrev pub signal_term : Signal
signal_term = curated (codes "TERM") sig_term

abbrev pub signal_kill : Signal
signal_kill = curated (codes "KILL") sig_kill

abbrev pub signal_int : Signal
signal_int = curated (codes "INT") sig_int

abbrev pub signal_hup : Signal
signal_hup = curated (codes "HUP") sig_hup

abbrev pub signal_quit : Signal
signal_quit = curated (codes "QUIT") sig_quit

abbrev pub signal_usr1 : Signal
signal_usr1 = curated (codes "USR1") sig_usr1

abbrev pub signal_usr2 : Signal
signal_usr2 = curated (codes "USR2") sig_usr2

-- `RawSignal`.
unfoldable pub raw_signal : ℤ → Signal
raw_signal n = record { name = codes ""; kind = sig_raw; raw = n }
