-- ===== src/Lag/Tests.antt =====
-- A group that is three messages behind on one partition and never read the other.
use plus_api.Common.{◌≡◌, refl, [], ◌∷◌}
use plus_api.Common.Int.{pos, negsuc}
use plus_api.Common.Result.{ok}
use plus_api.Lag.{Admin, get_total_lag, get_consumer_lag, topic_infos, partition_infos}

abbrev admin : Admin (Unit {0})
admin = record {
  fetch_offsets = λ group w. (
    ok (
        (
          "user.created",
          record { partition = 0; offset = pos 4 }
              ∷ record { partition = 1; offset = negsuc 0 }
              ∷ [],
        )
        ∷ []),
    w,
  );
  fetch_topic_offsets = λ topic w. (
    ok (
        record { partition = 1; high = pos 0; low = pos 0 }
        ∷ record { partition = 0; high = pos 7; low = pos 0 }
        ∷ []),
    w,
  );
}

four_behind : (get_total_lag admin "searcher" tt).0 ≡ ok (pos 4)
unfolding get_total_lag get_consumer_lag topic_infos partition_infos
four_behind = refl
