-- ===== src/Discovery/Ranking.antt =====
-- The comparator of agents gives one order, whichever way round it is asked.
use agent_host.Common.{ℕ, String, ◌≡◌, refl, true, false, Option, none, some, arith, one_if, get_or}
use agent_host.Common.Int.{ℤ}
use agent_host.Discovery.{
  Agent, Order, before, same, after, then_by, by_number, by_text, by_time, compare_activity,
  compare_agents, status_rank, has_action, visibility_rank, Host,
}

-- The order the other way round.
unfoldable pub flip : Order → Order
flip before = after
flip same = same
flip after = before

flip-then_by : (a b a' b' : Order) → a' ≡ flip a → b' ≡ flip b → then_by a' b' ≡ flip (then_by a b)
unfolding flip
flip-then_by before b a' b' e f = ground arith
flip-then_by same b a' b' e f = ground arith
flip-then_by after b a' b' e f = ground arith

flip-by_number : (a b : ℕ) → by_number b a ≡ flip (by_number a b)
unfolding flip
flip-by_number a b = ground arith

module _ (h : Host)
    (asymmetric : (s t : String) → h.text_before s t ≡ true → h.text_before t s ≡ false) where
  flip-by_text : (s t : String) → by_text h t s ≡ flip (by_text h s t)
  unfolding flip
  flip-by_text s t = ground (arith, asymmetric s t, asymmetric t s)

  flip-by_time :
      (a b : Option ℤ) (x y : Order) → y ≡ flip x → by_time h b a y ≡ flip (by_time h a b x)
  unfolding flip by_time
  flip-by_time (some a) (some b) x y e = ground arith
  flip-by_time (some a) none x y e = refl
  flip-by_time none (some b) x y e = refl
  flip-by_time none none x y e = e

  -- For an order of texts that never goes both ways: comparing two agents the other way round gives
  -- the opposite sign, so a sort never contradicts itself on a pair.
  pub compare_agents-flip : (a b : Agent) → compare_agents h b a ≡ flip (compare_agents h a b)
  unfolding compare_agents compare_activity
  compare_agents-flip a b =
      flip-then_by _ _ _ _ (flip-by_number (status_rank a.status) (status_rank b.status)) (
        flip-then_by _ _ _ _ (flip-by_number (one_if (has_action b)) (one_if (has_action a))) (
          flip-then_by _ _ _ _ (flip-by_number (visibility_rank a) (visibility_rank b)) (
            flip-then_by _ _ _ _
              (flip-by_time (h.date_parse (get_or a.last_activity_at ""))
                (h.date_parse (get_or b.last_activity_at "")) _ _
                (flip-by_text (get_or b.last_activity_at "") (get_or a.last_activity_at "")))
              (flip-by_text a.id b.id))))
