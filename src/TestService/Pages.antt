-- ===== src/TestService/Pages.antt =====
-- Reading the test runs of a project page by page, until `hasMore` is false.
use plus_api.Common.{
  ℕ, zero, suc, ◌+◌, ◌-◌, ◌*◌, ◌≤◌, ◌<◌, String, ◌≡◌, ◌∙◌, refl, sym, ap, inl, inr, false, Option,
  some, List, [], ◌++◌, ltb, leb, leb→le, arith, Bool-cases, if◌then◌else◌,
}
use plus_api.Common.Int.{pos, sub_ℕ}
use plus_api.Common.Lists.{
  length, take, drop, take-append-drop, take_all, drop_all, length-take, length-drop, drop-drop,
}
use plus_api.Common.Result.{ok, Async, settle, pure, throw, ◌>>=◌}
use plus_api.TestRun.{TestRun, TestRunStatus, TestRunTriggerSource}
use plus_api.TestService.{TestClient, RunFilter, PageOptions, RunPage, find_by_project_id}

mul_step : (k limit : ℕ) → suc k * limit ≡ k * limit + limit
mul_step k limit = grind arith

-- A page that leaves no more is not cut off.
last_page :
    {A : Type 0} (limit n total : ℕ) (xs : List A)
    → length xs ≡ total - n
    → ltb (n + limit + length (take limit xs)) (total + limit) ≡ false
    → length xs ≤ limit
last_page limit n total xs left done = elim (Bool-cases (leb (length xs) limit)) [
  | inl short ↦ leb→le _ _ short
  | inr long ↦ absurd (ground (arith, length-take limit xs))
]

module _ {C S W : Type 0} (client : TestClient C S W)
    (rows : RunFilter → W → List (TestRun C)) where
  -- The two queries of a page read the same list of rows and change nothing.
  pub record IsPaged : Type 0 where
    pub page :
        (f : RunFilter) (skip limit : ℕ) (w : W)
        → client.find_runs f (pos skip) limit w ≡ (ok (take limit (drop skip (rows f w))), w)
    pub counted : (f : RunFilter) (w : W) → client.count_runs f w ≡ (ok (length (rows f w)), w)

  module _ (project_id : String) (status : Option TestRunStatus)
      (source : Option TestRunTriggerSource) (limit : ℕ) where
    abbrev pub filter : RunFilter
    filter = record { project_id = project_id; status = status; trigger_source = source }

    abbrev pub options : ℕ → PageOptions
    options page = record {
      page = some page;
      limit = some limit;
      status = status;
      trigger_source = source;
    }

    -- what a caller does who wants all runs: at most `fuel` pages from the given one on
    unfoldable pub read_all : ℕ → ℕ → Async W (List (TestRun C))
    read_all zero page = pure []
    read_all (suc fuel) page = find_by_project_id client project_id (options page) >>= λ p.
        let rest = read_all fuel (page + 1) >>= λ more. pure (p.test_runs ++ more) in
        if p.has_more then rest else pure p.test_runs

    abbrev page_of : ℕ → W → RunPage C
    page_of k w =
        let runs = take limit (drop (k * limit) (rows filter w)) in
        record {
          test_runs = runs;
          total = length (rows filter w);
          has_more = ltb (suc k * limit + length runs) (length (rows filter w) + limit);
        }

    skip_lem : (k : ℕ) → sub_ℕ (suc k * limit) limit ≡ pos (k * limit)
    skip_lem k = ground (arith, mul_step k limit)

    page_lem :
        IsPaged
        → (k : ℕ) (w : W)
        → find_by_project_id client project_id (options (suc k)) w ≡ (ok (page_of k w), w)
    unfolding find_by_project_id
    page_lem paged k w = simp (skip_lem k, paged.page, paged.counted) refl

    abbrev after : ℕ → ℕ → RunPage C → Async W (List (TestRun C))
    after fuel k p =
        let rest = read_all fuel (suc k + 1) >>= λ more. pure (p.test_runs ++ more) in
        if p.has_more then rest else pure p.test_runs

    read_from :
        IsPaged
        → (w : W) → 0 < limit
        → (fuel k : ℕ) → length (rows filter w) ≤ (k + fuel) * limit
        → read_all fuel (suc k) w ≡ (ok (drop (k * limit) (rows filter w)), w)
    unfolding read_all
    read_from paged w h zero k enough =
        ap (λ l. (ok l, w))
          (sym (drop_all (k * limit) _ (let e : k + 0 ≡ k = omega arith in rw e at enough)))
    read_from paged w h (suc fuel) k enough =
        let xs = rows filter w in
        let n = k * limit in
        let e : suc (suc k) ≡ suc k + 1 = omega arith in
        let bound : length xs ≤ (suc k + fuel) * limit =
          (let e' : k + suc fuel ≡ suc k + fuel = omega arith in rw e' at enough) in
        let ih : read_all fuel (suc k + 1) w ≡ (ok (drop (suc k * limit) xs), w) =
          rw (← e) (read_from paged w h fuel (suc k) bound) in
        let rest = drop-drop limit n xs ∙ ap (λ m. drop m xs) (sym (mul_step k limit)) in
        ap (λ x. settle x.0 (after fuel k) throw x.1) (page_lem paged k w)
        ∙ elim (Bool-cases (page_of k w).has_more) [
          | inl more ↦ rw more (
              ap (λ x. settle x.0 (λ others. pure (take limit (drop n xs) ++ others)) throw x.1) ih
              ∙ ap (λ l. (ok l, w))
                  (ap (λ l. take limit (drop n xs) ++ l) (sym rest)
                    ∙ take-append-drop limit (drop n xs)))
          | inr done ↦ rw done (
              let ends = rw (mul_step k limit) at done in
              let short = last_page limit n (length xs) (drop n xs) (length-drop n xs) ends in
              ap (λ l. (ok l, w)) (take_all limit (drop n xs) short))
        ]

    -- If the two queries of each page see the same list of the project's runs, then asking page after
    -- page, from the first one on and as long as `hasMore` is true, gives each run once and in the
    -- list's order; for that as many pages are enough as there are runs, where the limit is not 0.
    pub read_all_lem :
        IsPaged
        → (fuel : ℕ) (w : W) → 0 < limit
        → length (rows filter w) ≤ fuel
        → read_all fuel 1 w ≡ (ok (rows filter w), w)
    read_all_lem paged fuel w h enough =
        let e : 0 * limit ≡ 0 = omega arith in rw e at (read_from paged w h fuel 0 (grind arith))
