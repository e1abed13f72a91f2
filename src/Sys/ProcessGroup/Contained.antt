-- ===== src/Sys/ProcessGroup/Contained.antt =====
-- The process-group backend fulfils the contract of a job.
use mathlib.Core.List.{Memᴰ}
use mathlib.Core.List.Memᴰ
use processkit_go.Prelude.{
  ℤ, pos, Option, none, some, is_none, List, [], ◌∷◌, map, ◌≡◌, refl, sym, subst, All, Bool-cases,
  inl, inr,
}
use processkit_go.Errors.{Error}
use processkit_go.Sys.{Kernel, Contract}
use processkit_go.Sys.ProcessGroup.{
  PgroupJob, negate, pgroup_ops, assign, adopt, kill, close, track_solo,
}
use processkit_go.Sys.ProcessGroup.Deliveries.{
  Delivery, Logged, logging, Broadcast, signal-Broadcast, targets_of,
}

-- A delivery of this signal to this target is in the log.
pub record Sent (target sig : ℤ) (log : List Delivery) : Type 0 where
  pub delivery : Delivery
  pub in_log : Memᴰ delivery log
  pub to_target : delivery.target ≡ target
  pub with_sig : delivery.sig ≡ sig

Sent-map :
    (target sig : ℤ) (sent : List Delivery)
    → All (λ d. d.sig ≡ sig) sent
    → Memᴰ target (map (λ d. d.target) sent)
    → Sent target sig sent
Sent-map target sig [] sigs m = elim m [ ]
Sent-map target sig (d ∷ ds) sigs (Memᴰ.head e) = record {
  delivery = d;
  in_log = Memᴰ.head refl;
  to_target = sym e;
  with_sig = sigs.0;
}
Sent-map target sig (d ∷ ds) sigs (Memᴰ.tail m) =
    let later = Sent-map target sig ds sigs.1 m in
    record {
      delivery = later.delivery;
      in_log = Memᴰ.tail later.in_log;
      to_target = later.to_target;
      with_sig = later.with_sig;
    }

Sent-Broadcast :
    {W : Type 0} (k : Kernel W) (targets : List ℤ) (target sig : ℤ) (log : List Delivery)
    (res : Option Error × Logged W)
    → Broadcast k targets sig none log res
    → Memᴰ target targets
    → Sent target sig res.1.1
Sent-Broadcast k targets target sig log res b m =
    let s =
      Sent-map target sig b.sent b.one_signal (subst (λ ts. Memᴰ target ts) (sym b.reached) m) in
    record {
      delivery = s.delivery;
      in_log = subst (λ l. Memᴰ s.delivery l) (sym b.logged) (Memᴰ.append_right log s.in_log);
      to_target = s.to_target;
      with_sig = s.with_sig;
    }

module _ {W : Type 0} (k : Kernel W) where
  abbrev pub Tracked : ℤ → PgroupJob → Type 0
  Tracked pid j = Memᴰ pid j.pgids

  -- SIGKILL has been sent to the process group that this child leads.
  abbrev pub Reached : ℤ → Logged W → Type 0
  Reached pid w = Sent (negate pid) k.sigkill w.1

  pub kill-Reached :
      (q : ℤ) (j : PgroupJob) (w : Logged W) → Tracked q j → Reached q (kill (logging k) j w).1
  unfolding kill logging
  kill-Reached q j (w, log) m =
      Sent-Broadcast k (targets_of j) (negate q) k.sigkill log _
        (signal-Broadcast k k.sigkill j w log) (Memᴰ.append_left j.solo (Memᴰ.map negate m))

  pub adopt-Tracked :
      (q pid : ℤ) (j : PgroupJob) (w : Logged W)
      → Tracked q j
      → Tracked q (adopt (logging k) pid j w).1
  unfolding adopt track_solo
  adopt-Tracked q pid j w m =
      let after_setpgid = ((logging k).setpgid pid pid w).1 in
      elim (Bool-cases (is_none ((logging k).setpgid pid pid w).0)) [
        | inl moved ↦ rw moved (Memᴰ.append_left (pid ∷ []) m)
        | inr stays ↦ elim (Bool-cases (is_none ((logging k).kill pid (pos 0) after_setpgid).0)) [
          | inl alive ↦ rw (stays, alive) m
          | inr gone ↦ rw (stays, gone) m
        ]
      ]

  pub assign-Tracked :
      (q : ℤ) (pid : Option ℤ) (j : PgroupJob) (w : Logged W)
      → Tracked q j
      → Tracked q (assign (logging k) pid j w).1
  unfolding assign
  assign-Tracked q none j w m = m
  assign-Tracked q (some pid) j w m = Memᴰ.append_left (pid ∷ []) m

  pub assigned-Tracked :
      (pid : ℤ) (j : PgroupJob) (w : Logged W) → Tracked pid (assign (logging k) (some pid) j w).1
  unfolding assign
  assigned-Tracked pid j w = Memᴰ.append_right j.pgids (Memᴰ.head refl)

  pub close-Reached :
      (q : ℤ) (j : PgroupJob) (w : Logged W) → Reached q w → Reached q (close (logging k) j w).1
  unfolding close
  close-Reached q j w h = h

  abbrev pub pgroup_contract : Contract (pgroup_ops (logging k))
  pgroup_contract = record {
    Tracked = Tracked;
    Reached = Reached;
    assign_tracks = λ pid j w _. assigned-Tracked pid j w;
    assign_keeps = assign-Tracked;
    adopt_keeps = adopt-Tracked;
    kill_reaches = kill-Reached;
    close_keeps = close-Reached;
  }
