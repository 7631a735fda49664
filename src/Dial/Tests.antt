-- ===== src/Dial/Tests.antt =====
-- Runs of the retrying dial of internal/tunnelproxy/tunnelproxy.go.
use aw_remote_host.Common.{ℕ, ◌==◌, if◌then◌else◌, ok, err, ◌≡◌, refl, true}
use aw_remote_host.Common.Int.{pos, pos_part}
use aw_remote_host.Dial.{Envelope, Network, attempts, dial_context, dial_loop}
use aw_remote_host.Dial.Retry.{IsRun, dial_context-IsRun}

abbrev standard : Envelope
standard = record {
  dial_attempts = pos 0;
  dial_timeout = pos 0;
  dial_backoff_min = pos 0;
  dial_backoff_max = pos 0;
}

-- The first packet is lost.
abbrev blip : Network ℕ
blip = record { dial = λ n. if n == 1 then err "refused" else ok n; sleep_backoff = λ n. true }

dial_context-IsRun_example :
    IsRun blip 1 (pos_part (attempts standard)) (dial_context blip standard)
dial_context-IsRun_example = dial_context-IsRun blip standard

recovers : (dial_context blip standard).result ≡ ok 2
unfolding dial_context dial_loop
recovers = refl
