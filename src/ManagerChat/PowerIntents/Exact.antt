-- ===== src/ManagerChat/PowerIntents/Exact.antt =====
-- Which bot a chat's request prepares a change of.
use braiker.Prelude.Result.{ok, ok-injective, >>=-eq-ok, throw_if->>}
use braiker.Prelude.{
  String, Option, List, ◌≡◌, some, subst, ◌∷◌, [], not, true, ◌∙◌, ◌++◌, arith, length, ◌≢◌, refl,
  ap, none,
}
use braiker.Bots.Row.{BotRow}
use braiker.ManagerChat.Actions.{
  create_manager_action_proposal, new_proposal, ActionProposal, assert_admin, is_admin,
}
use braiker.ManagerChat.PowerIntents.{
  PowerIntent, PowerProposal, PowerRequest, proposed, no_intent, unmatched, ambiguous, matches,
  prepare_for, prepare_intent, prepare_manager_power_proposal, request_of,
}

module _ {A : Type 0} (normalized hash : String → String) where
  -- The proposals grew by one for the only bot that the request names, or stayed.
  pub data Prepared (input : PowerRequest) (parsed : Option PowerIntent) (bots : List (BotRow A))
      (proposals : List ActionProposal) : PowerProposal × List ActionProposal → Type 0 where
    for_bot :
        (intent : PowerIntent) (bot : BotRow A)
        → parsed ≡ some intent
        → matches normalized intent bots ≡ bot ∷ []
        → is_admin input.actor_role ≡ true
        → Prepared input parsed bots proposals (
          proposed (new_proposal hash (request_of input intent bot.id)),
          proposals ++ new_proposal hash (request_of input intent bot.id) ∷ [],
        )
    nothing :
        (reply : PowerProposal)
        → ((intent : PowerIntent)
            → parsed ≡ some intent
            → length (matches normalized intent bots) ≢ 1)
        → Prepared input parsed bots proposals (reply, proposals)

  not_one :
      (intent i : PowerIntent) (bots found : List (BotRow A))
      → matches normalized intent bots ≡ found
      → some intent ≡ some i
      → length found ≢ 1
      → length (matches normalized i bots) ≢ 1
  not_one intent i bots found e same ne one =
      let as_found : length (matches normalized intent bots) ≡ 1 =
        subst (λ x. length (matches normalized x bots) ≡ 1) (cc same) one in
      ne (subst (λ rows. length rows ≡ 1) e as_found)

  prepare_for-Prepared :
      (input : PowerRequest) (intent : PowerIntent) (bots found : List (BotRow A))
      (proposals : List ActionProposal) (out : PowerProposal × List ActionProposal)
      → matches normalized intent bots ≡ found
      → prepare_for normalized hash input intent found proposals ≡ ok out
      → Prepared input (some intent) bots proposals out
  unfolding prepare_for create_manager_action_proposal assert_admin request_of
  prepare_for-Prepared input intent bots [] proposals out e h =
      subst (Prepared input (some intent) bots proposals) (ok-injective h) (
        nothing (unmatched intent)
          (λ i same one. not_one intent i bots [] e same (omega arith) one))
  prepare_for-Prepared input intent bots (bot ∷ []) proposals out e h =
      let (created, made, h1) =
        >>=-eq-ok (create_manager_action_proposal hash (request_of input intent bot.id) proposals) _
          h in
      let (admin, made') = throw_if->> (not (is_admin input.actor_role)) _ _ made in
      subst (Prepared input (some intent) bots proposals)
        (ap (λ (c : ActionProposal × List ActionProposal). (proposed c.0, c.1)) (ok-injective made')
          ∙ ok-injective h1)
        (for_bot intent bot refl e (ground arith))
  prepare_for-Prepared input intent bots (bot ∷ other ∷ rest) proposals out e h =
      subst (Prepared input (some intent) bots proposals) (ok-injective h) (
        nothing (ambiguous intent)
          (λ i same one. not_one intent i bots (bot ∷ other ∷ rest) e same (omega arith) one))

  prepare_intent-Prepared :
      (input : PowerRequest) (parsed : Option PowerIntent) (bots : List (BotRow A))
      (proposals : List ActionProposal) (out : PowerProposal × List ActionProposal)
      → prepare_intent normalized hash input parsed bots proposals ≡ ok out
      → Prepared input parsed bots proposals out
  unfolding prepare_intent
  prepare_intent-Prepared input none bots proposals out h =
      subst (Prepared input none bots proposals) (ok-injective h) (nothing no_intent (λ i same. cc))
  prepare_intent-Prepared input (some intent) bots proposals out h =
      prepare_for-Prepared input intent bots _ proposals out refl h

  pub prepare_manager_power_proposal-Prepared :
      (parse_intent : String → Option PowerIntent) (input : PowerRequest) (bots : List (BotRow A))
      (proposals : List ActionProposal) (out : PowerProposal × List ActionProposal)
      → prepare_manager_power_proposal normalized hash parse_intent input bots proposals ≡ ok out
      → Prepared input (parse_intent input.content) bots proposals out
  unfolding prepare_manager_power_proposal
  prepare_manager_power_proposal-Prepared parse_intent input bots proposals out h =
      prepare_intent-Prepared input (parse_intent input.content) bots proposals out h
