-- ===== src/Agent/Backdoor.antt =====
-- The functions of include/sdk_backdoor.h that other threads call: src/evp-agent/src/evp-agent.c,
-- lines 93 to 152. The agent library behind the context is a parameter, over a state of its own.
-- A call of the library on a context that is NULL has no result: it is `none`.
use mathlib.Core.Option
use mathlib.Core.Option.{bind}
use aitrios_edge_device_core.Base.{
  ℕ, ◌≡◌, refl, Bool, true, false, not, ◌||◌, Option, none, some, ◌==◌, ==_iff, arith,
  if◌then◌else◌, ℤ, negsuc,
}
use aitrios_edge_device_core.Agent.{Agent}

-- The agent library, with the two constants of its headers that the program names.
pub record Library (L : Type 0) : Type 0 where
  pub evp_agent_status_init : ℕ
  pub evp_again : ℤ
  pub get_status : L → ℕ
  pub undeploy_all : L → L
  pub empty_deployment_has_completed : L → ℤ
  pub register_client : L → Option ℕ × L
  pub unregister_client : ℕ → L → ℤ × L

module _ {S : Type 0} where
  abbrev pub get_backdoor_context : Agent S → Bool
  get_backdoor_context a = a.ctxt

  abbrev pub set_backdoor_context : Bool → Agent S → Agent S
  set_backdoor_context ctxt a = record a { ctxt = ctxt }

module _ {L : Type 0} (lib : Library L) where
  -- A call of the library on a context.
  abbrev pub on_context : {R : Type 0} → Bool → R → Option R
  on_context ctxt r = if ctxt then some r else none

  -- `EVP_getAgentStatus`, where `ctxt` is what `get_backdoor_context` returns.
  unfoldable pub get_agent_status : Bool → L → Option ℕ
  get_agent_status ctxt l =
      if ctxt then on_context ctxt (lib.get_status l) else some lib.evp_agent_status_init

  -- `EVP_Agent_register_sys_client`; the pointer is `none` for NULL.
  unfoldable pub register_sys_client : Bool → L → Option (Option ℕ × L)
  register_sys_client ctxt l =
      if ctxt then on_context ctxt (lib.register_client l) else some (none, l)

  -- `EVP_Agent_unregister_sys_client`
  unfoldable pub unregister_sys_client : Bool → ℕ → L → Option (ℤ × L)
  unregister_sys_client ctxt c l =
      if ctxt then on_context ctxt (lib.unregister_client c l) else some (negsuc 0, l)

  -- `EVP_undeployModules`, which reads the context twice.
  unfoldable pub undeploy_modules : Bool → Bool → L → Option (ℤ × L)
  unfolding get_agent_status
  undeploy_modules first second l =
      let undeployed = lib.undeploy_all l in
      let done = on_context second (lib.empty_deployment_has_completed undeployed, undeployed) in
      Option.bind (get_agent_status first l)
        (λ status. if status == lib.evp_agent_status_init then some (lib.evp_again, l) else done)

  branch :
      {R : Type 0} (b : Bool) (x y : R) → (if b then some x else some y) ≡ some (if b then x else y)
  branch true x y = refl
  branch false x y = refl

  ==_refl : (n : ℕ) → (n == n) ≡ true
  ==_refl n = (==_iff n n).1 refl

  -- If the context, once set, stays set between its two reads, undeploying never hands NULL to the
  -- library: it returns EVP_AGAIN and changes nothing while there is no context or the library is
  -- in its initial state, and otherwise undeploys and returns whether the deployment is empty.
  pub undeploy_modules_lem :
      (first second : Bool) (l : L)
      → (first ≡ true → second ≡ true)
      → undeploy_modules first second l
        ≡ some (
            if not first || lib.get_status l == lib.evp_agent_status_init
            then (lib.evp_again, l)
            else (lib.empty_deployment_has_completed (lib.undeploy_all l), lib.undeploy_all l))
  unfolding undeploy_modules get_agent_status bind
  undeploy_modules_lem true true l stays =
      branch (lib.get_status l == lib.evp_agent_status_init) _ _
  undeploy_modules_lem true false l stays = absurd (ground (arith, stays refl))
  undeploy_modules_lem false second l stays = rw (==_refl lib.evp_agent_status_init) refl
