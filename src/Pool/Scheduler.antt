-- ===== src/Pool/Scheduler.antt =====
-- pkg/pool/scheduler.go: ranking of candidate servers.
pub mod Orders
pub mod Choice
use mathlib.Core.Option.{Option, none, some}
use game_server_orchestrator.Prelude.{
  String, ℕ, Bool, not, List, [], ◌∷◌, filter, length, take, ltb, ◌==◌, if◌then◌else◌,
}
use game_server_orchestrator.Prelude.Int.{ℤ, ltb_ℤ, eqb_ℤ}
use game_server_orchestrator.Prelude.Text.{str_eq, str_lt}
use game_server_orchestrator.Prelude.Sort.{sort_slice}
use game_server_orchestrator.V1alpha1.Policy.{
  AllocationStrategy, allocation_fewest_players, allocation_lowest_latency, allocation_round_robin,
  allocation_strict_bin_pack,
}

pub record GameServerInfo : Type 0 where
  pub name : String
  pub endpoint : String
  pub node : String
  pub player_count : ℤ
  pub latency_ms : ℤ
  pub allocated : Bool

-- The comparisons that the calls of `sort.Slice` pass.
unfoldable pub fewer_players : GameServerInfo → GameServerInfo → Bool
fewer_players a b =
    if not (eqb_ℤ a.player_count b.player_count)
    then ltb_ℤ a.player_count b.player_count
    else str_lt a.name b.name

unfoldable pub lower_latency : GameServerInfo → GameServerInfo → Bool
lower_latency a b =
    if not (eqb_ℤ a.latency_ms b.latency_ms)
    then ltb_ℤ a.latency_ms b.latency_ms
    else str_lt a.name b.name

unfoldable pub more_players : GameServerInfo → GameServerInfo → Bool
more_players a b =
    if not (eqb_ℤ a.player_count b.player_count)
    then ltb_ℤ b.player_count a.player_count
    else str_lt a.name b.name

-- The `switch` on the strategy, whose default ranks as for the fewest players.
unfoldable pub less_for : AllocationStrategy → GameServerInfo → GameServerInfo → Bool
less_for strategy =
    if str_eq strategy allocation_fewest_players
    then fewer_players
    else if str_eq strategy allocation_lowest_latency
    then lower_latency
    else if str_eq strategy allocation_round_robin
    then fewer_players
    else if str_eq strategy allocation_strict_bin_pack
    then more_players
    else fewer_players

abbrev first : List GameServerInfo → Option GameServerInfo
first [] = none
first (c ∷ cs) = some c

unfoldable pub available : List GameServerInfo → List GameServerInfo
available = filter λ c. not c.allocated

-- `RankAndSelect`; `none` stands for nil. No strategy reads the regions.
unfoldable pub rank_and_select :
    List GameServerInfo → AllocationStrategy → List String → Option GameServerInfo
rank_and_select candidates strategy regions =
    if length candidates == 0
    then none
    else if length (available candidates) == 0
    then none
    else first (sort_slice (less_for strategy) (available candidates))

-- `SelectForDrain`, with a count that is a length at its only call.
unfoldable pub select_for_drain : List GameServerInfo → ℕ → List GameServerInfo
select_for_drain candidates count =
    if length candidates == 0
    then []
    else take (if ltb (length candidates) count then length candidates else count)
        (sort_slice fewer_players candidates)
