-- ===== src/Slayer/Tests.antt =====
-- A slayer task as the hub sends it, and what is shown of it.
use ha_osrs_map.Base.{◌≡◌, refl, none, some}
use ha_osrs_map.Slayer.{SentSlayer, slayer_state, main_streak, mortimer_streak}

-- Of which more remains than there was.
abbrev sent : SentSlayer
sent = record {
  task = some (record { name = none; location = none; remaining = some 87; amount = some 80 });
  points = none;
  streaks = record { normal = some 0; wilderness = some 3; mortimer = some 5 };
}

shows_mortimer : main_streak sent.streaks ≡ some (mortimer_streak, 5)
unfolding main_streak
shows_mortimer = refl

shows_all_of_it :
    slayer_state (some sent)
    ≡ some (record {
      task = some (record { name = none; location = none; remaining = 87; amount = 87 });
      points = none;
      streaks = sent.streaks;
    })
unfolding slayer_state
shows_all_of_it = refl
