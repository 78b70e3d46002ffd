-- ===== src/Capture/Switch.antt =====
-- Stop after the configuration has changed, and what any calls can leave in the state file.
use quarantine_lab.Prelude.{
  ◌≡◌, refl, Bool, true, false, ◌||◌, Option, none, some, arith, Bool-cases, Option-cases, inl, inr,
}
use quarantine_lab.Prelude.Text.{Text, codes, text_eq, to_lower}
use quarantine_lab.Capture.{
  guest_nic, mode_eq, is_gateway, is_nic, is_empty, is_zero, gateway_path, CaptureState, Config,
  Outside, World, mode_in, read_state, write_state, prepare, stop_previous, record_start,
  start_gateway, nic_state, trace_running, start_nic, start_local, start_fresh, start, stop_gateway,
  stop_local, stop_with_result, session_info, info, nic_info,
}
use quarantine_lab.Capture.Session.{nic_trace_active-state_file}

module _ {S : Type 0} (o : Outside S) (cfg : Config) (tracing : S → Bool) where
  -- A session of the NIC trace, with the trace on.
  abbrev pub Tracing : World S → Type 0
  Tracing w =
      (is_nic (read_state w).mode ≡ true)
      × (is_empty (read_state w).pcap_path ≡ false)
      × (tracing w.outside ≡ true)

  -- With a session of the NIC trace, StopWithResult ends the trace unless the configuration has been
  -- changed to the gateway mode. Then the trace goes on. Assumed is that VBoxManage ends the trace when
  -- it is told to, and that the gateway's answer does not touch it.
  pub stop_with_result-Tracing :
      (w : World S)
      → ((s : S) → tracing (o.trace_off s).1 ≡ false)
      → ((p : Text) (s : S) → tracing (o.stop_capture p s).1 ≡ tracing s)
      → cfg.has_vbox ≡ true
      → Tracing w
      → tracing (stop_with_result o cfg w).1.outside ≡ is_gateway (mode_in cfg)
  unfolding stop_with_result stop_gateway stop_local
  stop_with_result-Tracing w off keep has t =
      ground (arith, off w.outside, keep (read_state w).pcap_path w.outside, t.0, t.1, t.2)

-- What a state file can hold.
abbrev pub Proper : Option CaptureState → Type 0
Proper none = Unit
Proper (some st) =
    (is_empty st.pcap_path ≡ false)
    × (is_zero st.pid ≡ true)
    × ((is_gateway st.mode || mode_eq st.mode guest_nic) ≡ true)

-- One call of the manager with any configuration, or any change outside of it.
pub data Step {S : Type 0} (o : Outside S) (w : World S) : World S → Type 0 where
  starts : (cfg : Config) → Step o w (start o cfg w).1
  stops : (cfg : Config) → Step o w (stop_with_result o cfg w).1
  asks : (cfg : Config) → Step o w (info o cfg w).1
  changes : (s : S) → Step o w (record w { outside = s })

-- The states that steps lead to from a first one
pub data Reach {S : Type 0} (o : Outside S) (first : World S) : World S → Type 0 where
  fresh : Reach o first first
  then_step : {v w : World S} → Reach o first v → Step o v w → Reach o first w

gateway_path-nonempty : (path : Text) → is_empty (gateway_path path) ≡ false
gateway_path-nonempty path = ground arith

module _ {S : Type 0} (o : Outside S)
    (j : (d n : Text) → is_empty n ≡ false → is_empty (o.join d n) ≡ false) (cfg : Config) where
  abbrev IsProper : World S → Type 0
  IsProper w = Proper w.state_file

  record_start-Proper :
      (st : CaptureState) (w : World S)
      → Proper (some st)
      → IsProper w
      → IsProper (record_start o cfg st w).1
  unfolding write_state
  record_start-Proper st w p q = ground (arith, p, q)

  prepare-Proper : (w : World S) → IsProper w → IsProper (prepare o cfg w).1
  unfolding prepare stop_previous
  prepare-Proper w q = ground (arith, nic_trace_active-state_file o cfg true w, q)

  start_gateway-Proper : (w : World S) → IsProper w → IsProper (start_gateway o cfg w).1
  unfolding start_gateway
  start_gateway-Proper w q = elim (Bool-cases cfg.has_gateway) [
    | inl has ↦ elim (Option-cases (o.start_capture w.outside).0) [
      | inl failed ↦ simp has (rw failed q)
      | inr (path, e) ↦
          simp has (rw e (record_start-Proper _ _ (gateway_path-nonempty path, refl, refl) q))
    ]
    | inr missing ↦ simp missing q
  ]

  trace_running-Proper :
      (path : Text) (w : World S)
      → is_empty path ≡ false
      → IsProper w
      → IsProper (trace_running o cfg path w).1
  unfolding trace_running
  trace_running-Proper path w e q =
      let file = o.trace_file path w.outside in
      elim (Bool-cases file.0) [
        | inl named ↦ elim (Bool-cases (o.trace_on file.1).0) [
          | inl on ↦
              rw (named, on) (record_start-Proper (nic_state o cfg path _) _ (e, refl, refl) q)
          | inr off ↦ rw (named, off) q
        ]
        | inr failed ↦ rw failed q
      ]

  start_nic-Proper :
      (path : Text) (w : World S)
      → is_empty path ≡ false
      → IsProper w
      → IsProper (start_nic o cfg path w).1
  unfolding start_nic
  start_nic-Proper path w e q = elim (Bool-cases cfg.has_vbox) [
    | inl has ↦ elim (Option-cases (o.vm_state w.outside).0) [
      | inl failed ↦ simp has (rw failed q)
      | inr (state, k) ↦ elim (Bool-cases (text_eq (to_lower state) (codes "running"))) [
        | inl runs ↦ simp has (rw (k, runs) (trace_running-Proper path _ e q))
        | inr stands ↦ simp has (rw (k, stands) q)
      ]
    ]
    | inr missing ↦ simp missing q
  ]

  start_fresh-Proper : (w : World S) → IsProper w → IsProper (start_fresh o cfg w).1
  unfolding start_fresh start_local
  start_fresh-Proper w q = elim (Bool-cases (is_gateway (mode_in cfg))) [
    | inl g ↦ rw g (start_gateway-Proper w q)
    | inr n ↦ elim (Bool-cases (o.mkdir_log w.outside).0) [
      | inl made ↦ elim (Bool-cases (is_nic (mode_in cfg))) [
        | inl nic ↦ rw (n, made, nic) (start_nic-Proper _ _ (j cfg.log_dir _ refl) q)
        | inr unknown ↦ rw (n, made, unknown) q
      ]
      | inr failed ↦ rw (n, failed) q
    ]
  ]

  start-Proper : (w : World S) → IsProper w → IsProper (start o cfg w).1
  unfolding start
  start-Proper w q = elim (Bool-cases cfg.enabled) [
    | inl enabled ↦ elim (Option-cases (prepare o cfg w).0) [
      | inl none_found ↦ simp enabled (rw none_found (start_fresh-Proper _ (prepare-Proper w q)))
      | inr (path, e) ↦ simp enabled (rw e (prepare-Proper w q))
    ]
    | inr disabled ↦ simp disabled q
  ]

  stop_with_result-Proper : (w : World S) → IsProper w → IsProper (stop_with_result o cfg w).1
  unfolding stop_with_result stop_gateway stop_local
  stop_with_result-Proper w q = ground (arith, nic_trace_active-state_file o cfg true w, q)

  info-Proper : (w : World S) → IsProper w → IsProper (info o cfg w).1
  unfolding info session_info nic_info
  info-Proper w q = ground (arith, nic_trace_active-state_file o cfg false w, q)

Step-Proper :
    {S : Type 0} (o : Outside S) (w v : World S)
    → ((d n : Text) → is_empty n ≡ false → is_empty (o.join d n) ≡ false)
    → Step o w v
    → Proper w.state_file
    → Proper v.state_file
Step-Proper o w v j (starts cfg) q = start-Proper o j cfg w q
Step-Proper o w v j (stops cfg) q = stop_with_result-Proper o j cfg w q
Step-Proper o w v j (asks cfg) q = info-Proper o j cfg w q
Step-Proper o w v j (changes s) q = q

-- Start from a state in which there is no state file, or one that names a session with a path, no process,
-- and the mode of the gateway or of the guest's NIC. Whatever calls of the manager are made from there, in
-- any order, under any configurations and with any answers, the state file is again like that, if it is
-- there. Only the manager is taken to write it; filepath.Join with a name that is not empty is taken to
-- give a path.
pub Reach-Proper :
    {S : Type 0} (o : Outside S) (first w : World S)
    → ((d n : Text) → is_empty n ≡ false → is_empty (o.join d n) ≡ false)
    → Proper first.state_file
    → Reach o first w
    → Proper w.state_file
Reach-Proper o first w j p fresh = p
Reach-Proper o first w j p (then_step {v} r st) =
    Step-Proper o v w j st (Reach-Proper o first v j p r)
