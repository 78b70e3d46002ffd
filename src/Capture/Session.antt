-- ===== src/Capture/Session.antt =====
-- What Start records, and what Stop leaves behind.
use quarantine_lab.Prelude.{
  ◌≡◌, refl, subst, Bool, true, false, ◌||◌, some, arith, Bool-cases, Option-cases, inl, inr,
}
use quarantine_lab.Prelude.Text.{Text, codes, text_eq, to_lower}
use quarantine_lab.Capture.{
  Mode, gateway, guest_nic, is_gateway, is_nic, is_empty, is_zero, gateway_path, CaptureState,
  Config, Outside, World, mode_in, StartError, Started, ok, err, read_state, write_state,
  nic_trace_active, same_mode, prepare, record_start, start_gateway, nic_state, trace_running,
  start_nic, start_local, start_fresh, start, stop_gateway, stop_local, stop_with_result,
  session_info, info,
}

module _ {S : Type 0} where
  -- A path that Start returns is kept in the state file, for a session of the mode.
  abbrev pub Keeps : Config → Text → World S → Type 0
  Keeps cfg path v =
      (is_empty path ≡ false)
      × ((read_state v).pcap_path ≡ path)
      × (same_mode (read_state v).mode (mode_in cfg) ≡ true)

  unfoldable pub Records : Config → Started × World S → Type 0
  Records cfg (ok path, v) = Keeps cfg path v
  Records cfg (err e, v) = Unit

gateway_path-nonempty : (path : Text) → is_empty (gateway_path path) ≡ false
gateway_path-nonempty path = ground arith

same_gateway : (m : Mode) → is_gateway m ≡ true → same_mode gateway m ≡ true
same_gateway m g = ground arith

same_nic : (m : Mode) → is_nic m ≡ true → same_mode guest_nic m ≡ true
same_nic m n = ground arith

module _ {S : Type 0} (o : Outside S) (cfg : Config) where
  record_start-Records :
      (st : CaptureState) (w : World S)
      → is_empty st.pcap_path ≡ false
      → same_mode st.mode (mode_in cfg) ≡ true
      → Records cfg (record_start o cfg st w)
  unfolding write_state Records
  record_start-Records st w e m = ground (arith, e, m)

  Records-err : (e : StartError) (v : World S) → Records cfg (err e, v)
  unfolding Records
  Records-err e v = tt

  Records-ok : (path : Text) (v : World S) → Keeps cfg path v → Records cfg (ok path, v)
  unfolding Records
  Records-ok path v k = k

  start_gateway-Records :
      (w : World S) → is_gateway (mode_in cfg) ≡ true → Records cfg (start_gateway o cfg w)
  unfolding start_gateway
  start_gateway-Records w g = elim (Bool-cases cfg.has_gateway) [
    | inl has ↦ elim (Option-cases (o.start_capture w.outside).0) [
      | inl failed ↦ simp has (rw (failed) (Records-err _ _))
      | inr (path, e) ↦ simp has (
          rw (e)
            (record_start-Records _ _ (gateway_path-nonempty path) (same_gateway (mode_in cfg) g)))
    ]
    | inr missing ↦ simp missing (Records-err _ _)
  ]

  pub nic_trace_active-state_file :
      (force : Bool) (w : World S) → (nic_trace_active o cfg force w).1.state_file ≡ w.state_file
  unfolding nic_trace_active
  nic_trace_active-state_file force w = ground arith

  prepare-Keeps :
      (path : Text) (w : World S)
      → (prepare o cfg w).0 ≡ some path
      → Keeps cfg path (prepare o cfg w).1
  unfolding prepare
  prepare-Keeps path w h = ground (arith, nic_trace_active-state_file true w, h)

  trace_running-Records :
      (path : Text) (w : World S)
      → is_empty path ≡ false
      → is_nic (mode_in cfg) ≡ true
      → Records cfg (trace_running o cfg path w)
  unfolding trace_running
  trace_running-Records path w e n =
      let file = o.trace_file path w.outside in
      elim (Bool-cases file.0) [
        | inl named ↦ elim (Bool-cases (o.trace_on file.1).0) [
          | inl on ↦
              rw (named, on)
                (record_start-Records (nic_state o cfg path _) _ e (same_nic (mode_in cfg) n))
          | inr off ↦ rw (named, off) (Records-err _ _)
        ]
        | inr failed ↦ rw failed (Records-err _ _)
      ]

  start_nic-Records :
      (path : Text) (w : World S)
      → is_empty path ≡ false
      → is_nic (mode_in cfg) ≡ true
      → Records cfg (start_nic o cfg path w)
  unfolding start_nic
  start_nic-Records path w e n = elim (Bool-cases cfg.has_vbox) [
    | inl has ↦ elim (Option-cases (o.vm_state w.outside).0) [
      | inl failed ↦ simp has (rw (failed) (Records-err _ _))
      | inr (state, k) ↦ elim (Bool-cases (text_eq (to_lower state) (codes "running"))) [
        | inl runs ↦ simp has (rw (k, runs) (trace_running-Records path _ e n))
        | inr stands ↦ simp has (rw (k, stands) (Records-err _ _))
      ]
    ]
    | inr missing ↦ simp missing (Records-err _ _)
  ]

  start_local-Records :
      (w : World S)
      → ((d n : Text) → is_empty n ≡ false → is_empty (o.join d n) ≡ false)
      → Records cfg (start_local o cfg w)
  unfolding start_local
  start_local-Records w j = elim (Bool-cases (o.mkdir_log w.outside).0) [
    | inl made ↦ elim (Bool-cases (is_nic (mode_in cfg))) [
      | inl n ↦ rw (made, n) (start_nic-Records _ _ (j cfg.log_dir _ refl) n)
      | inr n ↦ rw (made, n) (Records-err _ _)
    ]
    | inr failed ↦ rw failed (Records-err _ _)
  ]

  start_fresh-Records :
      (w : World S)
      → ((d n : Text) → is_empty n ≡ false → is_empty (o.join d n) ≡ false)
      → Records cfg (start_fresh o cfg w)
  unfolding start_fresh
  start_fresh-Records w j = elim (Bool-cases (is_gateway (mode_in cfg))) [
    | inl g ↦ rw g (start_gateway-Records w g)
    | inr n ↦ rw n (start_local-Records w j)
  ]

  start-Records :
      (w : World S)
      → ((d n : Text) → is_empty n ≡ false → is_empty (o.join d n) ≡ false)
      → Records cfg (start o cfg w)
  unfolding start
  start-Records w j = elim (Bool-cases cfg.enabled) [
    | inl enabled ↦ elim (Option-cases (prepare o cfg w).0) [
      | inl none_found ↦ simp enabled (rw none_found (start_fresh-Records _ j))
      | inr (path, e) ↦ simp enabled (rw e (Records-ok _ _ (prepare-Keeps path w e)))
    ]
    | inr disabled ↦ simp disabled (Records-err _ _)
  ]

  -- A path that Start returns is not empty, and the state file then holds it, with the mode that the
  -- configuration asks for. filepath.Join with a name that is not empty is taken to give a path.
  pub start-Keeps :
      (w v : World S) (path : Text)
      → ((d n : Text) → is_empty n ≡ false → is_empty (o.join d n) ≡ false)
      → start o cfg w ≡ (ok path, v)
      → Keeps cfg path v
  unfolding Records
  start-Keeps w v path j e = subst (Records cfg) e (start-Records w j)

  -- The state file names no session.
  abbrev pub NoSession : World S → Type 0
  NoSession w = (is_empty (read_state w).pcap_path ≡ true) × (is_zero (read_state w).pid ≡ true)

  stop_local-NoSession :
      (st : CaptureState) (w : World S) → st ≡ read_state w → NoSession (stop_local o cfg st w).1
  unfolding stop_local
  stop_local-NoSession st w e = ground (arith, nic_trace_active-state_file true w)

  stop_gateway-NoSession : (st : CaptureState) (w : World S) → NoSession (stop_gateway o cfg st w).1
  unfolding stop_gateway
  stop_gateway-NoSession st w = ground arith

  info-NoSession : (w : World S) → NoSession w → (info o cfg w).0.running ≡ false
  unfolding info session_info
  info-NoSession w n = ground (arith, n.0, n.1)

  stop_with_result-NoSession : (w : World S) → NoSession (stop_with_result o cfg w).1
  unfolding stop_with_result
  stop_with_result-NoSession w =
      elim (Bool-cases (is_gateway (read_state w).mode || is_gateway (mode_in cfg))) [
        | inl g ↦ rw g (stop_gateway-NoSession (read_state w) w)
        | inr n ↦ rw n (stop_local-NoSession (read_state w) w refl)
      ]

  -- StopWithResult leaves no session in the state file, and Info then says that nothing runs, whatever
  -- the mode of the configuration and the answers of the machine and the gateway are.
  pub stop_with_result-info :
      (w : World S)
      → NoSession (stop_with_result o cfg w).1
        × ((info o cfg (stop_with_result o cfg w).1).0.running ≡ false)
  stop_with_result-info w = (
    stop_with_result-NoSession w,
    info-NoSession (stop_with_result o cfg w).1 (stop_with_result-NoSession w),
  )
