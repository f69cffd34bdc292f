-- ===== src/Net/Connector/Accounts.antt =====
-- Connector.cpp: the steps of a connector and the sockets that it makes.
use duo_duo.Base.{◌≡◌, refl, Bool, true, arith}
use duo_duo.Net.Connector.{disconnected, connecting_, connected, Connector, new_connector}
use duo_duo.Net.Connector.Sockets.{made, gone, held, IsPatient, IsSound}

data Case (c : Connector) : Type 0 where
  off : c.status ≡ disconnected → Case c
  busy : c.status ≡ connecting_ → Case c
  up : c.status ≡ connected → Case c

-- A new connector that retries has no socket, and its first delay is half a second.
new_connector-IsSound : (e : Bool) → IsSound (new_connector true e)
unfolding made gone held IsPatient
new_connector-IsSound e = record {
  timely = record { retries = refl; limit = refl; low = omega arith; high = omega arith };
  patient = tt;
  balance = refl;
  watched = λ k. absurd (cc);
  quiet = λ _. refl;
  dropped = λ _ _. refl;
}
