-- ===== src/Examples/Serving.antt =====
-- The server's set of sessions and a prepared statement, on concrete values.
use purity.Common.{ℕ, ◌≡◌, refl, true, false, List, [], ◌∷◌}
use purity.PreparedStatement.{PreparedStatement, set_param, set_param_number, set_null, params-set}
use purity.PreparedStatement
use purity.Server.{Server, create, stop}
use purity.Server.Laws.{Event, accepted, refused, closed, stop_lem}
use purity.Session
use purity.Examples.Login.{srp}

abbrev created : Server
created = create (Session.new srp)

abbrev events : List Event
events = accepted srp ∷ refused ∷ accepted srp ∷ closed 0 ∷ []

stop_lem_example :
    ((i : ℕ) → ((stop created).store i).closed ≡ true)
    × ((stop created).sessions ≡ [])
    × ((stop created).acceptor_open ≡ false)
    × ((stop created).timing ≡ false)
    × ((stop created).running ≡ false)
    × ((stop created).database ≡ false)
unfolding create
stop_lem_example = stop_lem created (λ i. refl)

abbrev statement : PreparedStatement
statement = PreparedStatement.create (83 ∷ [])
