-- ===== src/Capture/Examples.antt =====
-- A lab whose outside is a switch: whether the NIC trace is on.
use quarantine_lab.Prelude.{if◌then◌else◌, ◌≡◌, refl, Bool, true, false, ◌++◌, none, some, [], ◌∷◌}
use quarantine_lab.Prelude.Text.{Text, codes, to_lower, trim_space}
use quarantine_lab.Capture.{
  Config, Outside, World, ok, mode_in, is_empty, is_gateway, start, stop_with_result, prepare,
  start_fresh, start_local, start_nic, trace_running, write_state,
}
use quarantine_lab.Capture.Session.{Keeps, start-Keeps}
use quarantine_lab.Capture.Switch.{
  Tracing, stop_with_result-Tracing, Proper, fresh, then_step, starts, stops, Reach-Proper,
}

abbrev lab : Outside Bool
lab = record {
  show_vm_info = λ on. ((if on then some (codes "Trace: on") else some (codes "Trace: off")), on);
  vm_state = λ on. (some (codes "running"), on);
  trace_file = λ p on. (true, on);
  trace_on = λ on. (true, true);
  trace_off = λ on. (true, false);
  start_capture = λ on. (some (codes "gw.pcap"), on);
  stop_capture = λ p on. (record { pcap_path = p; message = [] }, on);
  kill = λ pid on. on;
  find_process = λ pid on. false;
  mkdir_log = λ on. (true, on);
  write_file = λ on. (true, on);
  join = λ d n. 47 ∷ d ++ n;
  base = λ p. p;
  stamp = λ on. [];
  now_text = λ on. codes "t";
  now = λ on. 0;
}

abbrev config : Text → Config
config mode = record {
  enabled = true;
  is_gateway_mode = false;
  mode = mode;
  guest_ip = [];
  gateway_guest_ip = [];
  log_dir = [];
  has_vbox = true;
  has_gateway = true;
}

abbrev stopped : World Bool
stopped = record {
  state_file = none;
  nic_checked_at = none;
  nic_cached_on = false;
  outside = false;
}

abbrev nic : Config
nic = config (codes "guest-nic")

abbrev traced : World Bool
traced = (start lab nic stopped).1

abbrev pcap : Text
pcap = codes "/quarantine-.pcap"

joined : (d n : Text) → is_empty n ≡ false → is_empty (lab.join d n) ≡ false
joined d n e = refl

started : start lab nic stopped ≡ (ok pcap, traced)
unfolding start prepare start_fresh start_local start_nic trace_running write_state mode_in to_lower
    trim_space
started = refl

start-Keeps_example : Keeps nic pcap traced
start-Keeps_example = start-Keeps lab nic stopped traced pcap joined started

traced-Tracing : Tracing lab nic (λ on. on) traced
unfolding start prepare start_fresh start_local start_nic trace_running write_state mode_in to_lower
    trim_space
traced-Tracing = (refl, refl, refl)

-- The configuration has changed to the gateway mode.
stop_with_result-Tracing_example :
    (stop_with_result lab (config (codes "gateway")) traced).1.outside
    ≡ is_gateway (mode_in (config (codes "gateway")))
stop_with_result-Tracing_example =
    stop_with_result-Tracing lab (config (codes "gateway")) (λ on. on) traced (λ s. refl)
      (λ p s. refl) refl traced-Tracing

Reach-Proper_example : Proper (stop_with_result lab nic traced).1.state_file
Reach-Proper_example =
    Reach-Proper lab stopped (stop_with_result lab nic traced).1 joined tt
      (then_step (then_step fresh (starts nic)) (stops nic))
