-- ===== src/Server/Subscriptions.antt =====
-- Subscriptions to resources (src/server/server.cpp): what is subscribed is registered.
use cpp_mcp_sdk.Base.{
  String, true, false, Option, none, some, List, [], ◌∷◌, ◌++◌, ◌≡◌, refl, arith, any, All, is_some,
  ◌=ₛ◌, Bool-cases, Option-cases, inl, inr,
}
use cpp_mcp_sdk.Jsonrpc.Json.{JsonApi}
use cpp_mcp_sdk.Jsonrpc.Messages.{RequestContext, Request, Notification}
use cpp_mcp_sdk.Server.Definitions.{ResourceDefinition}
use cpp_mcp_sdk.Server.{
  Registered, ResourceSubscription, Server, is_subscription, session_key_for_context,
  notify_resource_updated, resources_subscribe,
}
use cpp_mcp_sdk.Server.Registry.{
  find_named, erase_named, add_named, remove_named, find_named-append,
}
use cpp_mcp_sdk.Server.Registration.{
  resource_uri, register_resource, unregister_resource, without_uri,
}
use cpp_mcp_sdk.Server.Requests.{
  handle_resources_subscribe_request, handle_resources_unsubscribe_request, without_subscription,
  required_string,
}

pub data ResourceCall (J H : Type 0) : Type 0 where
  registers : ResourceDefinition J → Option H → ResourceCall J H
  unregisters : String → ResourceCall J H
  subscribes : RequestContext → Request J → ResourceCall J H
  unsubscribes : RequestContext → Request J → ResourceCall J H

module _ {J H : Type 0} (api : JsonApi J) where
  unfoldable pub resource_step : ResourceCall J H → Server J H → Server J H
  resource_step (registers d handler) s = (register_resource api d handler s).0
  resource_step (unregisters uri) s = (unregister_resource api uri s).0
  resource_step (subscribes context request) s =
      (handle_resources_subscribe_request api context request s).0
  resource_step (unsubscribes context request) s =
      (handle_resources_unsubscribe_request api context request s).0

  unfoldable pub resource_run : Server J H → List (ResourceCall J H) → Server J H
  unfolding resource_step
  resource_run s [] = s
  resource_run s (c ∷ cs) = resource_run (resource_step c s) cs

nil≢cons : {A : Type 0} {x : A} {xs : List A} → ¬ ([] ≡ x ∷ xs)
nil≢cons e = cc

-- Each subscription is to a resource of the list.
abbrev Known :
    {J H : Type 0} → List (Registered H (ResourceDefinition J)) → List ResourceSubscription → Type 0
Known rs subs = All (λ sub. is_some (find_named resource_uri sub.uri rs) ≡ true) subs

find_named-erase_other :
    {T : Type 0} (name : T → String) (n m : String) (ts : List T)
    → (n =ₛ m) ≡ false
    → find_named name m (erase_named name n ts) ≡ find_named name m ts
unfolding find_named erase_named
find_named-erase_other name n m [] h = refl
find_named-erase_other name n m (t ∷ ts) h = ground (arith, find_named-erase_other name n m ts h)

module _ {J H : Type 0} (rs : List (Registered H (ResourceDefinition J))) where
  append-Known :
      (r : Registered H (ResourceDefinition J)) (subs : List ResourceSubscription)
      → Known rs subs
      → Known (rs ++ (r ∷ [])) subs
  append-Known r [] k = tt
  append-Known r (sub ∷ subs) k =
      (ground (arith, find_named-append resource_uri sub.uri rs r, k.0), append-Known r subs k.1)

  erase-Known :
      (uri : String) (subs : List ResourceSubscription)
      → Known rs subs
      → Known (erase_named resource_uri uri rs) (without_uri uri subs)
  unfolding without_uri
  erase-Known uri [] k = tt
  erase-Known uri (sub ∷ subs) k = elim (Bool-cases (sub.uri =ₛ uri)) [
    | inl gone ↦ rw (gone, without_uri) (erase-Known uri subs k.1)
    | inr stays ↦
        rw (stays, without_uri)
          (
            ground (arith, find_named-erase_other resource_uri uri sub.uri rs, stays, k.0),
            erase-Known uri subs k.1,
          )
  ]

  without-Known :
      (key uri : String) (subs : List ResourceSubscription)
      → Known rs subs
      → Known rs (without_subscription key uri subs)
  unfolding without_subscription
  without-Known key uri [] k = tt
  without-Known key uri (sub ∷ subs) k = elim (Bool-cases (is_subscription key uri sub)) [
    | inl gone ↦ rw (gone, without_subscription) (without-Known key uri subs k.1)
    | inr stays ↦ rw (stays, without_subscription) (k.0, without-Known key uri subs k.1)
  ]

  subscribe-Known :
      (key uri : String) (subs : List ResourceSubscription)
      → is_some (find_named resource_uri uri rs) ≡ true
      → Known rs subs
      → Known rs (subs ++ (record { session_key = key; uri = uri } ∷ []))
  subscribe-Known key uri [] known k = (known, tt)
  subscribe-Known key uri (sub ∷ subs) known k = (k.0, subscribe-Known key uri subs known k.1)

  subscribed-Known :
      (key uri : String) (subs : List ResourceSubscription)
      → Known rs subs
      → any (is_subscription key uri) subs ≡ true
      → is_some (find_named resource_uri uri rs) ≡ true
  unfolding is_subscription
  subscribed-Known key uri [] k h = cc
  subscribed-Known key uri (sub ∷ subs) k h = ground (arith, subscribed-Known key uri subs k.1, k.0)

abbrev KnownTo : {J H : Type 0} → Server J H → Type 0
KnownTo s = Known s.resources s.resource_subscriptions

module _ {J H : Type 0} (api : JsonApi J) where
  register-Known :
      (d : ResourceDefinition J) (handler : Option H) (s : Server J H)
      → KnownTo s
      → KnownTo (register_resource api d handler s).0
  unfolding register_resource add_named
  register-Known d none s k = k
  register-Known d (some handler) s k = elim (Bool-cases (d.uri =ₛ "")) [
    | inl e ↦ rw (e, register_resource) k
    | inr e ↦ elim (Bool-cases (d.name =ₛ "")) [
      | inl f ↦ rw (e, f, register_resource) k
      | inr f ↦ elim (Bool-cases (is_some (find_named resource_uri d.uri s.resources))) [
        | inl taken ↦ rw (e, f, register_resource, add_named, taken) k
        | inr free ↦
            rw (e, f, register_resource, add_named, free)
              (append-Known s.resources (record { definition = d; handler = handler })
                s.resource_subscriptions k)
      ]
    ]
  ]

  unregister-Known :
      (uri : String) (s : Server J H) → KnownTo s → KnownTo (unregister_resource api uri s).0
  unfolding unregister_resource remove_named
  unregister-Known uri s k = elim (Bool-cases (is_some (find_named resource_uri uri s.resources))) [
    | inl held ↦
        rw (held, unregister_resource, remove_named)
          (erase-Known s.resources uri s.resource_subscriptions k)
    | inr absent ↦ rw (absent, unregister_resource, remove_named) k
  ]

  subscribe_request-Known :
      (context : RequestContext) (request : Request J) (s : Server J H)
      → KnownTo s
      → KnownTo (handle_resources_subscribe_request api context request s).0
  unfolding handle_resources_subscribe_request
  subscribe_request-Known context request s k =
      elim (Option-cases (required_string api "resources/subscribe" "uri" request).1) [
        | inl e ↦ rw (e, handle_resources_subscribe_request) k
        | inr (uri, e) ↦ elim (Bool-cases (is_some (find_named resource_uri uri s.resources))) [
          | inr absent ↦ rw (e, handle_resources_subscribe_request, absent) k
          | inl held ↦
              elim (Bool-cases (
                any (is_subscription (session_key_for_context context) uri)
                  s.resource_subscriptions)) [
                    | inl twice ↦ rw (e, handle_resources_subscribe_request, held, twice) k
                    | inr new ↦
                        rw (e, handle_resources_subscribe_request, held, new)
                          (subscribe-Known s.resources (session_key_for_context context) uri
                            s.resource_subscriptions held k)
                  ]
        ]
      ]

  unsubscribe_request-Known :
      (context : RequestContext) (request : Request J) (s : Server J H)
      → KnownTo s
      → KnownTo (handle_resources_unsubscribe_request api context request s).0
  unfolding handle_resources_unsubscribe_request
  unsubscribe_request-Known context request s k =
      elim (Option-cases (required_string api "resources/unsubscribe" "uri" request).1) [
        | inl e ↦ rw (e, handle_resources_unsubscribe_request) k
        | inr (uri, e) ↦
            rw (e, handle_resources_unsubscribe_request)
              (without-Known s.resources (session_key_for_context context) uri
                s.resource_subscriptions k)
      ]

  run-Known :
      (s : Server J H) (cs : List (ResourceCall J H)) → KnownTo s → KnownTo (resource_run api s cs)
  unfolding resource_run resource_step
  run-Known s [] k = k
  run-Known s (c ∷ cs) k = run-Known (resource_step api c s) cs (step-Known c s k)
    where
      step-Known :
          (c : ResourceCall J H) (s : Server J H) → KnownTo s → KnownTo (resource_step api c s)
      step-Known (registers d handler) s k = register-Known d handler s k
      step-Known (unregisters uri) s k = unregister-Known uri s k
      step-Known (subscribes context request) s k = subscribe_request-Known context request s k
      step-Known (unsubscribes context request) s k = unsubscribe_request-Known context request s k

  notified-subscribed :
      (uri : String) (context : RequestContext) (n : Notification J) (ns : List (Notification J))
      (s : Server J H)
      → notify_resource_updated api uri context s ≡ n ∷ ns
      → any (is_subscription (session_key_for_context context) uri) s.resource_subscriptions ≡ true
  unfolding notify_resource_updated
  notified-subscribed uri context n ns s h =
      elim (Bool-cases
        (any (is_subscription (session_key_for_context context) uri) s.resource_subscriptions)) [
          | inl yes_it_is ↦ yes_it_is
          | inr e ↦ elim (Bool-cases (resources_subscribe s.capabilities.resources)) [
            | inl f ↦ absurd (nil≢cons (rw (notify_resource_updated, e, f) at h))
            | inr f ↦ absurd (nil≢cons (rw (notify_resource_updated, f) at h))
          ]
        ]

  -- From a server without subscriptions, and after any sequence of registrations and unregistrations
  -- of resources, subscriptions and their ends, a notification that a resource was updated is only
  -- sent for a resource that is registered.
  pub updated-registered :
      (s : Server J H) (cs : List (ResourceCall J H)) (uri : String) (context : RequestContext)
      (n : Notification J) (ns : List (Notification J))
      → s.resource_subscriptions ≡ []
      → notify_resource_updated api uri context (resource_run api s cs) ≡ n ∷ ns
      → is_some (find_named resource_uri uri (resource_run api s cs).resources) ≡ true
  updated-registered s cs uri context n ns none_yet sent_one =
      let t = resource_run api s cs in
      let known = run-Known s cs (rw none_yet tt) in
      subscribed-Known t.resources (session_key_for_context context) uri t.resource_subscriptions
        known (notified-subscribed uri context n ns t sent_one)
