-- ===== src/Lag.antt =====
-- How far a consumer group is behind: getConsumerLag, hasLag and getTotalLag of
-- apps/searcher/src/kafka/kafka-offset.service.ts. Kafka's admin client is a parameter, and an offset,
-- a decimal text in the source, is its number (-1 for a group that has committed nothing).
pub mod Total
mod Tests
use plus_api.Common.{
  ℕ, ◌+◌, String, Bool, true, false, not, ◌||◌, Option, none, some, List, [], ◌∷◌, ◌++◌, ◌==◌,
  if◌then◌else◌,
}
use plus_api.Common.Int.{ℤ, pos, pos_part, neg_part, sub_ℕ, leb_ℤ}
use plus_api.Common.Result.{Error, Async, pure, throw, try_catch, ◌>>=◌}

-- `high - offset`, and the sum
abbrev pub minus_ℤ : ℤ → ℤ → ℤ
minus_ℤ a b = sub_ℕ (pos_part a + neg_part b) (neg_part a + pos_part b)

abbrev pub add_ℤ : ℤ → ℤ → ℤ
add_ℤ a b = sub_ℕ (pos_part a + pos_part b) (neg_part a + neg_part b)

abbrev pub is_positive : ℤ → Bool
is_positive a = not (leb_ℤ a (pos 0))

pub record OffsetInfo : Type 0 where
  pub topic : String
  pub partition : ℕ
  pub offset : ℤ
  pub high : ℤ
  pub low : ℤ
  pub lag : ℤ

-- what `fetchOffsets` tells of a partition
pub record GroupOffset : Type 0 where
  pub partition : ℕ
  pub offset : ℤ

-- what `fetchTopicOffsets` tells of a partition
pub record TopicOffset : Type 0 where
  pub partition : ℕ
  pub high : ℤ
  pub low : ℤ

pub record Admin (W : Type 0) : Type 0 where
  pub fetch_offsets : String → Async W (List (String × List GroupOffset))
  pub fetch_topic_offsets : String → Async W (List TopicOffset)

-- `topicOffsets.find(p => p.partition === partition.partition)`
abbrev pub find_partition : ℕ → List TopicOffset → Option TopicOffset
find_partition p [] = none
find_partition p (o ∷ os) = if o.partition == p then some o else find_partition p os

abbrev pub info : String → GroupOffset → Option TopicOffset → List OffsetInfo
info topic g none = []
info topic g (some t) =
    record {
      topic = topic;
      partition = g.partition;
      offset = g.offset;
      high = t.high;
      low = t.low;
      lag = minus_ℤ t.high g.offset;
    }
    ∷ []

module _ {W : Type 0} (admin : Admin W) where
  -- the inner loop
  unfoldable pub partition_infos : String → List GroupOffset → Async W (List OffsetInfo)
  partition_infos topic [] = pure []
  partition_infos topic (g ∷ gs) = admin.fetch_topic_offsets topic >>= λ offsets.
      partition_infos topic gs >>= λ rest.
      pure (info topic g (find_partition g.partition offsets) ++ rest)

  -- the outer loop
  unfoldable pub topic_infos : List (String × List GroupOffset) → Async W (List OffsetInfo)
  topic_infos [] = pure []
  topic_infos ((topic, gs) ∷ topics) =
      partition_infos topic gs >>= λ infos. topic_infos topics >>= λ rest. pure (infos ++ rest)

  unfoldable pub get_consumer_lag : String → Async W (List OffsetInfo)
  get_consumer_lag group = admin.fetch_offsets group >>= topic_infos

-- `offsets.some(offset => offset.lag > 0)`
abbrev pub some_lag : List OffsetInfo → Bool
some_lag [] = false
some_lag (o ∷ os) = is_positive o.lag || some_lag os

-- `offsets.reduce((total, offset) => total + offset.lag, total)`
abbrev pub sum_lag : ℤ → List OffsetInfo → ℤ
sum_lag total [] = total
sum_lag total (o ∷ os) = sum_lag (add_ℤ total o.lag) os

module _ {W : Type 0} (admin : Admin W) where
  unfoldable pub has_lag : String → Async W Bool
  has_lag group =
      try_catch (get_consumer_lag admin group) (λ offsets. pure (some_lag offsets))
        (λ e. pure false)

  unfoldable pub get_total_lag : String → Async W ℤ
  get_total_lag group =
      try_catch (get_consumer_lag admin group) (λ offsets. pure (sum_lag (pos 0) offsets))
        (λ e. pure (pos 0))
