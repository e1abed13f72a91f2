-- ===== src/Sys/ProcessGroup/Deliveries.antt =====
-- What the process-group backend sends, seen through a kernel that logs each `Kill`.
use processkit_go.Prelude.{
  ℤ, ℕ, Option, none, some, List, [], ◌∷◌, ◌++◌, map, if◌then◌else◌, ◌≡◌, refl, sym, ◌∙◌, ap, subst,
  All, append_assoc, append-nil, Bool-cases, inl, inr,
}
use processkit_go.Errors.{Error, errno}
use processkit_go.Sys.{Kernel}
use processkit_go.Sys.ProcessGroup.{PgroupJob, negate, benign, keep_first, deliver_all, signal}

pub record Delivery : Type 0 where
  pub target : ℤ
  pub sig : ℤ
  pub answer : Option ℕ

abbrev pub Logged : Type 0 → Type 0
Logged W = W × List Delivery

unfoldable pub logging : {W : Type 0} → Kernel W → Kernel (Logged W)
logging k = record {
  kill = λ target sig w.
      (let (answer, w') = k.kill target sig w.0 in
        (answer, (w', w.1 ++ (record { target = target; sig = sig; answer = answer }) ∷ [])));
  setpgid = λ pid pgid w. (let (answer, w') = k.setpgid pid pgid w.0 in (answer, (w', w.1)));
  esrch = k.esrch;
  eperm = k.eperm;
  sigkill = k.sigkill;
  sigstop = k.sigstop;
  sigcont = k.sigcont;
}

-- The first answer that is an error and not that of a target that is gone.
abbrev pub first_real : {W : Type 0} → Kernel W → List Delivery → Option Error
first_real k [] = none
first_real k (d ∷ rest) =
    let later = first_real k rest in
    elim d.answer [ none ↦ later | some e ↦ if benign k e then later else some (errno e) ]

abbrev pub or_first : Option Error → Option Error → Option Error
or_first (some e) later = some e
or_first none later = later

-- What a broadcast of `sig` to these targets adds to the log, and the error it returns.
pub record Broadcast {W : Type 0} (k : Kernel W) (targets : List ℤ) (sig : ℤ) (first : Option Error)
    (log : List Delivery) (res : Option Error × Logged W) : Type 0 where
  pub sent : List Delivery
  pub logged : res.1.1 ≡ log ++ sent
  pub reached : map (λ d. d.target) sent ≡ targets
  pub one_signal : All (λ d. d.sig ≡ sig) sent
  pub error : res.0 ≡ or_first first (first_real k sent)

keep-answer :
    {W : Type 0} (k : Kernel W) (d : Delivery) (rest : List Delivery) (answer : Option ℕ)
    → d.answer ≡ answer
    → or_first (keep_first k none answer) (first_real k rest) ≡ first_real k (d ∷ rest)
keep-answer k d rest none e = rw e refl
keep-answer k d rest (some n) e = elim (Bool-cases (benign k n)) [
  | inl b ↦ rw (e, b) refl
  | inr b ↦ rw (e, b) refl
]

or_first-keep :
    {W : Type 0} (k : Kernel W) (first : Option Error) (d : Delivery) (rest : List Delivery)
    → or_first (keep_first k first d.answer) (first_real k rest)
      ≡ or_first first (first_real k (d ∷ rest))
or_first-keep k (some e) d rest = refl
or_first-keep k none d rest = keep-answer k d rest d.answer refl

or_first-none : (first : Option Error) → first ≡ or_first first none
or_first-none none = refl
or_first-none (some e) = refl

module _ {W : Type 0} (k : Kernel W) (sig : ℤ) where
  abbrev delivery : ℤ → W → Delivery
  delivery t w = record { target = t; sig = sig; answer = (k.kill t sig w).0 }

  pub deliver_all-Broadcast :
      (targets : List ℤ) (first : Option Error) (w : W) (log : List Delivery)
      → Broadcast k targets sig first log (deliver_all (logging k) targets sig first (w, log))
  unfolding deliver_all logging
  deliver_all-Broadcast [] first w log = record {
    sent = [];
    logged = sym (append-nil log);
    reached = refl;
    one_signal = tt;
    error = or_first-none first;
  }
  deliver_all-Broadcast (t ∷ ts) first w log =
      let d = delivery t w in
      let later =
        deliver_all-Broadcast ts (keep_first k first d.answer) (k.kill t sig w).1 (log ++ d ∷ []) in
      record {
        sent = d ∷ later.sent;
        logged = later.logged ∙ append_assoc log (d ∷ []) later.sent;
        reached = ap (λ l. t ∷ l) later.reached;
        one_signal = (refl, later.one_signal);
        error = later.error ∙ or_first-keep k first d later.sent;
      }

deliver_all-append :
    {W : Type 0} (k : Kernel W) (sig : ℤ) (ts us : List ℤ) (first : Option Error) (w : W)
    → deliver_all k (ts ++ us) sig first w
      ≡ deliver_all k us sig (deliver_all k ts sig first w).0 (deliver_all k ts sig first w).1
unfolding deliver_all
deliver_all-append k sig [] us first w = refl
deliver_all-append k sig (t ∷ ts) us first w =
    deliver_all-append k sig ts us (keep_first k first (k.kill t sig w).0) (k.kill t sig w).1

-- The targets of a signal to the job: each process group as a negative id, then each process
-- tracked alone.
abbrev pub targets_of : PgroupJob → List ℤ
targets_of j = map negate j.pgids ++ j.solo

-- A signal to a process-group job is sent to every group and every process it tracks, once each and
-- in order, whatever each delivery answers, and the error returned is the first answer that is
-- neither ESRCH nor EPERM.
pub signal-Broadcast :
    {W : Type 0} (k : Kernel W) (sig : ℤ) (j : PgroupJob) (w : W) (log : List Delivery)
    → Broadcast k (targets_of j) sig none log (signal (logging k) sig j (w, log))
unfolding signal
signal-Broadcast k sig j w log =
    subst (λ res. Broadcast k (targets_of j) sig none log res)
      (deliver_all-append (logging k) sig (map negate j.pgids) j.solo none (w, log))
      (deliver_all-Broadcast k sig (targets_of j) none w log)
