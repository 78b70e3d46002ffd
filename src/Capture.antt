-- ===== src/Capture.antt =====
-- go/internal/capture/manager.go: packet capture by VirtualBox's NIC trace or the gateway's tcpdump.
-- VBoxManage, the gateway, processes and the file system are the argument `o`, on a state of their own.
pub mod Session
pub mod Switch
mod Examples
use quarantine_lab.Prelude.{
  ℕ, suc, ◌-◌, Bool, true, false, ◌&&◌, ◌||◌, not, Option, none, some, List, [], ◌∷◌, ◌++◌, ltb,
  leb, if◌then◌else◌,
}
use quarantine_lab.Prelude.Int.{ℤ, pos, negsuc}
use quarantine_lab.Prelude.Text.{Text, codes, text_eq, to_lower, trim_space, has_part, itoa}

-- A mode is a string: "gateway", "guest-nic", "vbox-nictrace", "" or another one.
pub data Mode : Type 0 where
  gateway guest_nic vbox_nictrace unset : Mode
  other : Text → Mode

abbrev pub mode_of : Text → Mode
mode_of t =
    if text_eq t []
    then unset
    else if text_eq t (codes "gateway")
    then gateway
    else if text_eq t (codes "guest-nic")
    then guest_nic
    else if text_eq t (codes "vbox-nictrace")
    then vbox_nictrace
    else other t

abbrev pub mode_text : Mode → Text
mode_text gateway = codes "gateway"
mode_text guest_nic = codes "guest-nic"
mode_text vbox_nictrace = codes "vbox-nictrace"
mode_text unset = []
mode_text (other t) = t

abbrev pub mode_eq : Mode → Mode → Bool
mode_eq gateway gateway = true
mode_eq guest_nic guest_nic = true
mode_eq vbox_nictrace vbox_nictrace = true
mode_eq unset unset = true
mode_eq (other s) (other t) = text_eq s t
mode_eq _ _ = false

abbrev pub is_gateway : Mode → Bool
is_gateway m = mode_eq m gateway

abbrev pub is_nic : Mode → Bool
is_nic m = mode_eq m guest_nic || mode_eq m vbox_nictrace

abbrev pub is_unset : Mode → Bool
is_unset m = mode_eq m unset

abbrev pub is_empty : Text → Bool
is_empty t = text_eq t []

abbrev pub is_positive : ℤ → Bool
is_positive (pos n) = ltb 0 n
is_positive (negsuc n) = false

abbrev pub is_zero : ℤ → Bool
is_zero (pos n) = leb n 0
is_zero (negsuc n) = false

abbrev pub pid_text : ℤ → Text
pid_text (pos n) = itoa n
pid_text (negsuc n) = codes "-" ++ itoa (suc n)

-- captureState
pub record CaptureState : Type 0 where
  pub pid : ℤ
  pub pcap_path : Text
  pub interface : Text
  pub filter : Text
  pub guest_ip : Text
  pub mode : Mode
  pub started_at : Text

abbrev pub no_state : CaptureState
no_state = record {
  pid = pos 0;
  pcap_path = [];
  interface = [];
  filter = [];
  guest_ip = [];
  mode = unset;
  started_at = [];
}

-- What the manager reads of the configuration, and which of its clients are not nil.
pub record Config : Type 0 where
  pub enabled : Bool
  pub is_gateway_mode : Bool
  pub mode : Text
  pub guest_ip : Text
  pub gateway_guest_ip : Text
  pub log_dir : Text
  pub has_vbox : Bool
  pub has_gateway : Bool

-- What PullResult the manager makes itself, or hands on from the gateway.
pub record PullResult : Type 0 where
  pub pcap_path : Text
  pub message : Text

-- The calls that leave the program. `none` and `false` are errors.
pub record Outside (S : Type 0) : Type 0 where
  pub show_vm_info : S → Option Text × S
  pub vm_state : S → Option Text × S
  pub trace_file : Text → S → Bool × S
  pub trace_on : S → Bool × S
  pub trace_off : S → Bool × S
  pub start_capture : S → Option Text × S
  pub stop_capture : Text → S → PullResult × S
  pub kill : ℤ → S → S
  pub find_process : ℤ → S → Bool
  pub mkdir_log : S → Bool × S
  pub write_file : S → Bool × S
  pub join : Text → Text → Text
  pub base : Text → Text
  -- time.Now, as the name of a file and as RFC 3339
  pub stamp : S → Text
  pub now_text : S → Text
  -- time.Now in nanoseconds
  pub now : S → ℕ

-- The manager with the file that keeps its state; `none` is a file that is missing or not readable.
pub record World (S : Type 0) : Type 0 where
  pub state_file : Option CaptureState
  pub nic_checked_at : Option ℕ
  pub nic_cached_on : Bool
  pub outside : S

abbrev pub is_recent : ℕ → Option ℕ → Bool
is_recent now none = false
is_recent now (some t) = ltb (now - t) 15_000_000_000

abbrev pub shows_trace : Option Text → Bool
shows_trace none = false
shows_trace (some out) = has_part (to_lower out) (codes "trace: on")

abbrev pub stored : Option CaptureState → CaptureState
stored none = no_state
stored (some st) = st

-- mode
unfoldable pub mode_in : Config → Mode
mode_in cfg =
    let mode = to_lower (trim_space cfg.mode) in
    if cfg.is_gateway_mode then gateway else if is_empty mode then guest_nic else mode_of mode

pub record StatusInfo : Type 0 where
  pub running : Bool
  pub mode : Mode
  pub pcap_path : Text
  pub started_at : Text
  pub message : Text
  pub stale : Bool
  pub enabled : Bool

pub data StartError : Type 0 where
  capture_disabled gateway_missing gateway_failed state_not_written log_dir_failed vbox_missing
        vm_state_failed :
      StartError
  vm_not_running : Text → StartError
  trace_file_failed trace_on_failed : StartError
  unsupported_mode : Mode → StartError

pub data Started : Type 0 where
  ok : Text → Started
  err : StartError → Started

-- st.Mode and `mode` name one kind of capture.
abbrev pub same_mode : Mode → Mode → Bool
same_mode m n = mode_eq m n || is_nic n && is_nic m

abbrev pub gateway_path : Text → Text
gateway_path path = if is_empty path then codes "gateway:/var/log/quarantine/pcap" else path

abbrev pub stopped_result : CaptureState → PullResult
stopped_result st = record {
  pcap_path = st.pcap_path;
  message =
      if not (is_empty st.pcap_path)
      then codes "PCAP saved: " ++ st.pcap_path
      else codes "Capture stopped.";
}

abbrev pub nothing_pulled : PullResult
nothing_pulled = record { pcap_path = []; message = [] }

module _ {S : Type 0} where
  -- readState
  abbrev pub read_state : World S → CaptureState
  read_state w = stored w.state_file

  -- clearState
  abbrev pub clear_state : World S → World S
  clear_state w = record w { state_file = none }

module _ {S : Type 0} (o : Outside S) (cfg : Config) where
  -- writeState, and whether it did. A write that fails is taken to leave the file as it was, and there is
  -- one log directory.
  unfoldable pub write_state : CaptureState → World S → Bool × World S
  write_state st w =
      let made = o.mkdir_log w.outside in
      let put = o.write_file made.1 in
      if not made.0
      then (false, record w { outside = made.1 })
      else if not put.0
      then (false, record w { outside = put.1 })
      else (true, record w { outside = put.1; state_file = some st })

  -- nicTraceActive
  unfoldable pub nic_trace_active : Bool → World S → Bool × World S
  nic_trace_active force w =
      let shown = o.show_vm_info w.outside in
      let active = shows_trace shown.0 in
      if not cfg.has_vbox
      then (false, w)
      else if not force && is_recent (o.now w.outside) w.nic_checked_at
      then (w.nic_cached_on, w)
      else (
        active,
        record w {
          outside = shown.1;
          nic_checked_at = some (o.now shown.1);
          nic_cached_on = active;
        },
      )

  abbrev pub stale_info : StatusInfo → CaptureState → StatusInfo
  stale_info i st = record i {
    stale = true;
    running = false;
    message =
        if not (is_empty st.pcap_path)
        then codes "stopped — last PCAP " ++ o.base st.pcap_path
        else codes "stopped (stale session cleared)";
  }

  abbrev pub running_info : StatusInfo → CaptureState → StatusInfo
  running_info i st = record i {
    running = true;
    message =
        if not (is_empty st.pcap_path)
        then codes "running — " ++ o.base st.pcap_path
        else codes "running";
  }

  -- The part of Info for a session of the NIC trace
  unfoldable pub nic_info : StatusInfo → CaptureState → World S → StatusInfo × World S
  unfolding nic_trace_active
  nic_info i st w =
      let checked = nic_trace_active false w in
      if checked.0 then (running_info i st, checked.1) else (stale_info i st, clear_state checked.1)

  abbrev pub process_info : StatusInfo → CaptureState → World S → StatusInfo × World S
  process_info i st w =
      if is_positive st.pid && o.find_process st.pid w.outside
      then (
        record i {
          running = true;
          message = codes "running (pid " ++ (pid_text st.pid ++ codes ")");
        },
        w,
      )
      else (record i { message = codes "stopped" }, clear_state w)

  -- Info of a manager that is enabled, from its state on
  unfoldable pub session_info : StatusInfo → CaptureState → World S → StatusInfo × World S
  unfolding mode_in nic_info
  session_info i st w =
      if is_gateway st.mode || is_gateway (mode_in cfg)
      then (if not (is_empty st.pcap_path) && not (is_empty st.started_at)
          then (
            record i {
              running = true;
              message = codes "running — gateway " ++ o.base st.pcap_path;
            },
            w,
          )
          else (record i { message = codes "stopped" }, w))
      else if is_empty st.pcap_path && is_zero st.pid
      then (record i { message = codes "stopped" }, w)
      else if is_nic st.mode || is_unset st.mode
      then nic_info i st w
      else process_info i st w

  abbrev pub blank_info : StatusInfo
  blank_info = record {
    running = false;
    mode = mode_in cfg;
    pcap_path = [];
    started_at = [];
    message = [];
    stale = false;
    enabled = cfg.enabled;
  }

  -- Info
  unfoldable pub info : World S → StatusInfo × World S
  unfolding session_info
  info w =
      let st = read_state w in
      if not cfg.enabled
      then (record blank_info { message = codes "capture disabled in config" }, w)
      else session_info
          (record blank_info {
            pcap_path = st.pcap_path;
            started_at = st.started_at;
            mode = if is_unset st.mode then mode_in cfg else st.mode;
          })
          st w

  -- What Start does to end a session of another mode, before it forgets it.
  unfoldable pub stop_previous : CaptureState → World S → World S
  stop_previous st w =
      if is_gateway st.mode && cfg.has_gateway
      then record w { outside = (o.stop_capture st.pcap_path w.outside).1 }
      else if is_nic st.mode
      then (if cfg.has_vbox then record w { outside = (o.trace_off w.outside).1 } else w)
      else if is_positive st.pid && o.find_process st.pid w.outside
      then record w { outside = o.kill st.pid w.outside }
      else w

  -- Whether Start finds its capture running, or goes on to start one.
  unfoldable pub prepare : World S → Option Text × World S
  unfolding stop_previous nic_trace_active mode_in
  prepare w =
      let st = read_state w in
      let same = same_mode st.mode (mode_in cfg) in
      let checked = nic_trace_active true w in
      if is_empty st.pcap_path
      then (none, w)
      else if same && is_gateway (mode_in cfg)
      then (some st.pcap_path, w)
      else if same && is_nic st.mode
      then (if checked.0 then (some st.pcap_path, checked.1) else (none, clear_state checked.1))
      else if not same
      then (none, clear_state (stop_previous st w))
      else (none, w)

  -- The end of Start: the new state is written, and its path returned.
  abbrev pub record_start : CaptureState → World S → Started × World S
  record_start st w =
      let written = write_state st w in
      ((if written.0 then ok st.pcap_path else err state_not_written), written.1)

  -- Start in the mode "gateway"
  unfoldable pub start_gateway : World S → Started × World S
  unfolding write_state
  start_gateway w =
      let started = o.start_capture w.outside in
      let v : World S = record w { outside = started.1 } in
      if not cfg.has_gateway then (err gateway_missing, w) else elim started.0 [
        | none ↦ (err gateway_failed, v)
        | some path ↦
            record_start
              (record {
                pid = pos 0;
                pcap_path = gateway_path path;
                interface = codes "gateway-lan";
                filter = codes "all LAN frames via gateway tcpdump";
                guest_ip = cfg.gateway_guest_ip;
                mode = gateway;
                started_at = o.now_text started.1;
              })
              v
      ]

  -- The state of a new NIC trace
  abbrev pub nic_state : Text → S → CaptureState
  nic_state path s = record {
    pid = pos 0;
    pcap_path = path;
    interface = codes "vbox-nic1";
    filter = codes "all guest NIC frames (includes UDP/53 DNS)";
    guest_ip = if is_empty cfg.guest_ip then codes "10.0.2.15" else cfg.guest_ip;
    mode = guest_nic;
    started_at = o.now_text s;
  }

  abbrev pub pcap_name : S → Text
  pcap_name s = codes "quarantine-" ++ (o.stamp s ++ codes ".pcap")

  -- Start of the NIC trace in a machine that runs
  unfoldable pub trace_running : Text → World S → Started × World S
  unfolding write_state
  trace_running path w =
      let file = o.trace_file path w.outside in
      let on = o.trace_on file.1 in
      if not file.0
      then (err trace_file_failed, record w { outside = file.1 })
      else if not on.0
      then (err trace_on_failed, record w { outside = on.1 })
      else record_start (nic_state path on.1)
          (record w { outside = on.1; nic_checked_at = some (o.now on.1); nic_cached_on = true })

  -- Start in the modes of the NIC trace, once there is a log directory
  unfoldable pub start_nic : Text → World S → Started × World S
  unfolding trace_running
  start_nic path w =
      let asked = o.vm_state w.outside in
      let v : World S = record w { outside = asked.1 } in
      if not cfg.has_vbox then (err vbox_missing, w) else elim asked.0 [
        | none ↦ (err vm_state_failed, v)
        | some state ↦
            if not (text_eq (to_lower state) (codes "running"))
            then (err (vm_not_running state), v)
            else trace_running path v
      ]

  -- Start in a mode other than "gateway"
  unfoldable pub start_local : World S → Started × World S
  unfolding start_nic mode_in
  start_local w =
      let made = o.mkdir_log w.outside in
      let v : World S = record w { outside = made.1 } in
      if not made.0
      then (err log_dir_failed, v)
      else if is_nic (mode_in cfg)
      then start_nic (o.join cfg.log_dir (pcap_name made.1)) v
      else (err (unsupported_mode (mode_in cfg)), v)

  -- Start, after it has found no capture that runs
  unfoldable pub start_fresh : World S → Started × World S
  unfolding start_gateway start_local mode_in
  start_fresh w = if is_gateway (mode_in cfg) then start_gateway w else start_local w

  -- Start
  unfoldable pub start : World S → Started × World S
  unfolding prepare start_fresh
  start w =
      let found = prepare w in
      if not cfg.enabled
      then (err capture_disabled, w)
      else elim found.0 [ some path ↦ (ok path, found.1) | none ↦ start_fresh found.1 ]

  -- StopWithResult for the gateway
  unfoldable pub stop_gateway : CaptureState → World S → PullResult × World S
  stop_gateway st w =
      let pulled = o.stop_capture st.pcap_path w.outside in
      if is_empty st.pcap_path && is_empty st.started_at
      then (nothing_pulled, clear_state w)
      else if cfg.has_gateway
      then (pulled.0, clear_state (record w { outside = pulled.1 }))
      else (nothing_pulled, clear_state w)

  -- The end of the NIC trace, or of the process of an older session
  abbrev pub end_session : Bool → CaptureState → World S → World S
  end_session nic st w =
      if nic
      then (if cfg.has_vbox then record w { outside = (o.trace_off w.outside).1 } else w)
      else if is_positive st.pid && o.find_process st.pid w.outside
      then record w { outside = o.kill st.pid w.outside }
      else w

  abbrev pub closed : CaptureState → World S → PullResult × World S
  closed st w = (
    stopped_result st,
    clear_state (record w { nic_checked_at = some (o.now w.outside); nic_cached_on = false }),
  )

  -- StopWithResult otherwise
  unfoldable pub stop_local : CaptureState → World S → PullResult × World S
  unfolding nic_trace_active
  stop_local st w =
      let guest = is_nic st.mode || is_unset st.mode in
      let checked = nic_trace_active true w in
      if is_empty st.pcap_path && is_zero st.pid
      then (if not checked.0
          then (nothing_pulled, checked.1)
          else closed st (end_session true st checked.1))
      else closed st (end_session guest st w)

  -- StopWithResult; it never returns an error.
  unfoldable pub stop_with_result : World S → PullResult × World S
  unfolding stop_gateway stop_local mode_in
  stop_with_result w =
      let st = read_state w in
      if is_gateway st.mode || is_gateway (mode_in cfg) then stop_gateway st w else stop_local st w
