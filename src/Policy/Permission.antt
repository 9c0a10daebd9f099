-- ===== src/Policy/Permission.antt =====
-- crates/api/src/permission.rs: principals, requests and decisions. The string identifiers
-- (`PrincipalId`, `ActionId`, `ResourceId`) are texts. `serde_json::Value` is not code of the
-- repository, so the context of a request is of a type that `Json` leaves open.
use ai_kernel.Prelude.{
  Text, text_eq, codes, if◌then◌else◌, Bool, true, false, ◌≡◌, ◌↔◌, ◌||◌, Option, none, some,
}

pub data PrincipalKind : Type 0 where
  user agent plugin system external : PrincipalKind

-- `==` on kinds.
unfoldable pub kind_eq : PrincipalKind → PrincipalKind → Bool
kind_eq PrincipalKind.user PrincipalKind.user = true
kind_eq PrincipalKind.agent PrincipalKind.agent = true
kind_eq PrincipalKind.plugin PrincipalKind.plugin = true
kind_eq PrincipalKind.system PrincipalKind.system = true
kind_eq PrincipalKind.external PrincipalKind.external = true
kind_eq _ _ = false

pub record Principal : Type 0 where
  pub id : Text
  pub kind : PrincipalKind
  pub on_behalf_of : Option Text

-- Whether an optional text is present and is `owner`.
abbrev pub is_some_text : Option Text → Text → Bool
is_some_text none owner = false
is_some_text (some t) owner = text_eq t owner

unfoldable pub may_act_for : Principal → Text → Bool
may_act_for p owner = text_eq p.id owner || is_some_text p.on_behalf_of owner

pub data Decision : Type 0 where
  allow : Decision
  deny : Text → Decision
  require_approval : Text → Decision

unfoldable pub is_allowed : Decision → Bool
is_allowed allow = true
is_allowed _ = false

-- What the code relies on of `serde_json::Value`: a field lookup and a decidable equality.
pub record Json : Type 1 where
  pub Value : Type 0
  pub get : Value → Text → Option Value
  pub value_eq : Value → Value → Bool
  pub value_eq_iff : (a b : Value) → (value_eq a b ≡ true) ↔ (a ≡ b)

pub record PermissionRequest (j : Json) : Type 0 where
  pub principal : Principal
  pub action : Text
  pub resource : Option Text
  pub context : j.Value

-- `Principal::system`.
unfoldable pub system_principal : Principal
system_principal = record { id = codes "system"; kind = system; on_behalf_of = none }

-- crates/api/src/execution.rs: the part of `ExecutionContext` that rules and the registry read.
pub record ExecutionContext (j : Json) : Type 0 where
  pub correlation : Text
  pub principal : Option Principal
  pub attribute : Text → Option j.Value

abbrev pub or_system : Option Principal → Principal
or_system none = system_principal
or_system (some p) = p

module _ {j : Json} where
  unfoldable pub principal_or_system : ExecutionContext j → Principal
  principal_or_system cx = or_system cx.principal

  -- `cx.child()` shares all that is modelled of `cx`.
  unfoldable pub child : ExecutionContext j → ExecutionContext j
  child cx = cx

  unfoldable pub with_attribute : ExecutionContext j → Text → j.Value → ExecutionContext j
  with_attribute cx key value = record cx {
    attribute = λ k. if text_eq key k then some value else cx.attribute k;
  }
