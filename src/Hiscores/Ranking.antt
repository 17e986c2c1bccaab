-- ===== src/Hiscores/Ranking.antt =====
-- That a board stands best first.
use Prim.Native.String.{String}
use ha_osrs_map.Base.{◌≡◌, arith, Bool, true, false, List}
use ha_osrs_map.Base.Sorting.{IsSorted, sort-IsSorted}
use ha_osrs_map.Hiscores.{Player, Board, Ranked, best_first, entries_on, guild_board}

module _ (le : String → String → Bool) (total : (a b : String) → le a b ≡ false → le b a ≡ true)
    (trans : (a b c : String) → le a b ≡ true → le b c ≡ true → le a c ≡ true) where
  best_first_total : (a b : Ranked) → best_first le a b ≡ false → best_first le b a ≡ true
  best_first_total a b h = ground (arith, h, total a.name b.name)

  best_first_trans :
      (a b c : Ranked)
      → best_first le a b ≡ true
      → best_first le b c ≡ true
      → best_first le a c ≡ true
  best_first_trans a b c h k = ground (arith, h, k, trans a.name b.name c.name)

  -- A board stands best first: by xp and then by level, or by score, and those who are level by
  -- name, where names compare in a total order.
  pub guild_board-IsSorted :
      (players : List Player) (board : Board)
      → IsSorted (best_first le) (guild_board le players board)
  unfolding guild_board
  guild_board-IsSorted players board =
      sort-IsSorted (best_first le) best_first_total best_first_trans (entries_on board players)
