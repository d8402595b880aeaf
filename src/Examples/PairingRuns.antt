-- ===== src/Examples/PairingRuns.antt =====
-- pairing/: runs of the theorems.
use botkit.Prelude.{
  ℕ, ◌+◌, ◌≡◌, refl, false, none, List, [], ◌∷◌, nat_eq, Text, codes, text_beq, text_eq,
}
use botkit.Errors.{ok}
use botkit.Http.{Request, method_post, bearer}
use botkit.Pairing.{WhatsApp, Server, Clock, handler}
use botkit.Pairing.Cooldown.{Visit, attempts, Spaced, attempts-Spaced}

abbrev unpaired : WhatsApp
unpaired = record { paired = false; connected = false; pair = ok (codes "ABCD"); groups = ok [] }

abbrev ask : Text → Text → Request
ask method path = record { method = method; path = path; authorization = bearer (codes "s3") }

abbrev server : Server
server = record { token = codes "s3"; last_pair = none }

abbrev at : ℕ → Clock
at t = record { check = t; stamp = t + 1 }

abbrev visit : ℕ → Visit
visit t = record { wa = unpaired; clock = at t; request = ask method_post (codes "/pair") }

abbrev visits : List Visit
visits = visit 5 ∷ visit 6 ∷ visit 200_000_000_000 ∷ []

attempts-Spaced_example : Spaced none (attempts visits server)
attempts-Spaced_example = attempts-Spaced visits server

two_attempts : attempts visits server ≡ at 5 ∷ at 200_000_000_000 ∷ []
unfolding attempts handler text_beq
two_attempts = refl
