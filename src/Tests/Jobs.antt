-- ===== src/Tests/Jobs.antt =====
-- A child that a Job Object (internal/sys/job_windows.go) contains.
use processkit_go.Prelude.{
  arith, pos, ℕ, Bool, true, false, none, some, codes, ◌≡◌, refl, if◌then◌else◌,
}
use processkit_go.Errors.{errno, ok, err}
use processkit_go.Sys.Windows.{WinApi, WinJob, is_closed, assign}
use processkit_go.Sys.Windows.Guard.{Settled, assign-Settled}

data Child : Type 0 where
  outside inside resumed ended : Child

abbrev contained : Child → Child
contained outside = inside
contained inside = inside
contained resumed = resumed
contained ended = ended

-- NtResumeProcess on a child: only one that is in the job is resumed.
abbrev resume_status : Child → ℕ × Child
resume_status outside = (5, outside)
resume_status inside = (0, resumed)
resume_status resumed = (0, resumed)
resume_status ended = (5, ended)

data Contained : Child → Type 0 where
  is_inside : Contained inside
  is_resumed : Contained resumed

data Resumed : Child → Type 0 where
  does_run : Resumed resumed

data Ended : Child → Type 0 where
  has_ended : Ended ended

abbrev is_ended : Child → Bool
is_ended outside = false
is_ended inside = false
is_ended resumed = false
is_ended ended = true

contains_child :
    (w : Child) → if◌then◌else◌ (is_ended w) (some (errno 5)) none ≡ none → Contained (contained w)
contains_child outside e = is_inside
contains_child inside e = is_inside
contains_child resumed e = is_resumed
contains_child ended e = absurd (ground arith)

resumes_child :
    (w : Child)
    → Contained w
    → (resume_status w).0 ≡ 0
    → Contained (resume_status w).1 × Resumed (resume_status w).1
resumes_child outside c e = absurd (omega arith)
resumes_child inside c e = (is_resumed, does_run)
resumes_child resumed c e = (is_resumed, does_run)
resumes_child ended c e = absurd (omega arith)

abbrev child_api : WinApi Child
child_api = record {
  create_job = λ w. (ok 4, w);
  set_extended = λ h l w. (none, w);
  set_cpu_rate = λ h r w. (none, w);
  close_handle = λ h w. (none, w);
  open_process = λ a pid w. (ok 9, w);
  assign_to_job = λ job h w. (if◌then◌else◌ (is_ended w) (some (errno 5)) none, contained w);
  nt_resume = λ h w. resume_status w;
  terminate_process = λ h w. ended;
  terminate_job = λ h w. (none, ended);
  exit_code = λ h w. (ok 259, w);
  query_accounting = λ h w. (err (errno 5), w);
  query_peak = λ h w. (err (errno 5), w);
  process_peak = λ h w. (none, w);
  process_times = λ h w. (err (errno 5), w);
  is_invalid_parameter = λ e. false;
  invalid_handle = 18446744073709551615;
  num_cpu = 4;
  word = 64;
  show_hex = λ n. codes "5";
}

abbrev open_job : WinJob
open_job = record { handle = 4 }

assign-Settled_example :
    Settled Contained Resumed Ended (assign child_api (some (pos 7)) open_job outside)
assign-Settled_example =
    assign-Settled child_api (pos 7) (λ h. h ≡ 9) Contained Resumed Ended (λ a w h e. ground arith)
      (λ w. (9, refl)) (λ job h w handle e. contains_child w e)
      (λ h w handle c e. resumes_child w c e) (λ h w handle. has_ended) (λ h w c. c) (λ h w r. r)
      (λ h w e. e) open_job outside (unfold is_closed in refl)
