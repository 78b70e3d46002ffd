-- ===== src/Inspect/Flow.antt =====
-- go/internal/pcapinspect/types.go: a conversation of a capture.
use quarantine_lab.Prelude.{ℕ, Bool, List, ◌++◌, suc}
use quarantine_lab.Prelude.Int.{ℤ, pos, negsuc}
use quarantine_lab.Prelude.Text.{Text, codes, itoa}

pub record Flow : Type 0 where
  pub id : Text
  pub transport : Text
  pub protocol : Text
  pub src_ip : Text
  pub dst_ip : Text
  pub src_port : ℤ
  pub dst_port : ℤ
  pub stream : ℤ
  pub packets : ℕ
  pub bytes : ℤ
  pub first : Text
  pub last : Text
  pub info : Text
  pub names : List Text
  pub has_payload : Bool
  pub policy_breach : Bool
  pub policy_reason : Text

-- %d
unfoldable pub decimal : ℤ → Text
unfolding itoa
decimal (pos n) = itoa n
decimal (negsuc n) = codes "-" ++ itoa (suc n)
