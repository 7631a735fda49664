-- ===== src/Link/Tests.antt =====
-- Runs of the reconnect loop of internal/link/link.go: a first link that redeems a bootstrap token,
-- drops, and links again.
use aw_remote_host.Common.{ok, ◌≡◌, refl, ◌⊎◌, true, false, none, some, [], ◌∷◌, arith, str_eq}
use aw_remote_host.Common.Int.{pos}
use aw_remote_host.Link.{
  Credentials, Reply, replied, Client, World, Session, connect, fall_back, choose_token,
  after_connect, turn, run, fresh,
}
use aw_remote_host.Link.Reconnect.{session_of, before, Presented, turn-Presented}
use aw_remote_host.Link.Pauses.{HasBounds}
use aw_remote_host.Link.Stored.{redeemed-credential_first}

abbrev client : Client
client = record { token = "awbs_1"; min_backoff = pos 0; max_backoff = pos 0 }

abbrev welcome : Reply
welcome = record {
  op = "registered";
  code = "";
  message = "";
  remote_host_id = "h1";
  host_credential = "awlk_1";
}

abbrev world : World
world = record {
  cancelled = λ n. false;
  cancelled_after = λ n. false;
  slept = λ n. true;
  exchange = λ k token. replied welcome;
  save = λ k. none;
  outside = λ n o. o;
}

abbrev first_link : Session
first_link = fresh client none

turn-Presented_example :
    ((session_of (turn world client 0 first_link)).tokens ≡ first_link.tokens)
    ⊎ Presented world client
        (choose_token client (before world 0 first_link).creds)
        (before world 0 first_link)
        (session_of (turn world client 0 first_link)).tokens
turn-Presented_example = turn-Presented world client 0 first_link

client_bounds : HasBounds client 1_000_000_000 60_000_000_000
client_bounds = record { lower = refl; upper = refl; ordered = omega arith; fits = omega arith }

redeems : (connect world "awbs_1" first_link).1 ≡ ok welcome
unfolding connect
redeems = refl

abbrev later : Session
later = session_of (run world client 3 0 (connect world "awbs_1" first_link).0)

redeemed-credential_first_example :
    (x : Credentials) × ((before world 7 later).creds ≡ some x)
    × (str_eq x.host_credential "" ≡ false)
    × Presented world client x.host_credential
        (before world 7 later)
        (session_of (turn world client 7 later)).tokens
redeemed-credential_first_example =
    redeemed-credential_first world client "awbs_1" first_link welcome 3 0 7 (λ n o h. h) redeems
      refl refl

-- The second turn presents the credential that the first stored.
two_turns : (session_of (run world client 2 0 first_link)).tokens ≡ "awlk_1" ∷ "awbs_1" ∷ []
unfolding run turn connect fall_back choose_token after_connect
two_turns = refl
