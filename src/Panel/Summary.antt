-- ===== src/Panel/Summary.antt =====
-- `parsePort` and `primaryFlow` of internal/http/server.go: what GET /api/state says of the
-- inbound.
use flint2_xray_web_console.Base.{
  ◌≡◌, ◌≢◌, refl, false, Option, none, some, List, [], ◌∷◌, Text, text_eq, text_eq_iff, ok, err,
  arith, if◌then◌else◌, Bool-cases, inl, inr, ◌↔◌, is_nil,
}
use flint2_xray_web_console.Base.Int.{ℤ}
use flint2_xray_web_console.Json.{Json}
use flint2_xray_web_console.Json.Decode.{decode_int}
use flint2_xray_web_console.Xray.Model.{Client, Inbound, Settings}
use flint2_xray_web_console.Xray.Clients.{settings_of, empty_settings}

-- the port, or 0 if there is none or it is no integer
unfoldable pub parse_port : Option Json → ℤ
parse_port none = ℤ.pos 0
parse_port (some v) = elim (decode_int v) [ ok n ↦ n | err e ↦ ℤ.pos 0 ]

-- the loop of `primaryFlow` over the clients after the first
unfoldable pub shared_flow : Text → List Client → Text
shared_flow first [] = first
shared_flow first (c ∷ l) = if text_eq c.flow first then shared_flow first l else []

unfoldable pub flow_of : List Client → Text
unfolding shared_flow
flow_of [] = []
flow_of (c ∷ l) = shared_flow c.flow l

unfoldable pub primary_flow : Inbound → Text
unfolding flow_of
primary_flow i = elim i.settings [ none ↦ [] | some s ↦ flow_of s.clients ]

-- the clients bear this flow
abbrev pub HaveFlow : Text → List Client → Type 0
HaveFlow flow [] = Unit
HaveFlow flow (c ∷ l) = (c.flow ≡ flow) × HaveFlow flow l

shared_flow-HaveFlow :
    (first flow : Text) (l : List Client)
    → flow ≢ []
    → shared_flow first l ≡ flow
    → (first ≡ flow) × HaveFlow flow l
unfolding shared_flow
shared_flow-HaveFlow first flow [] some_flow h = (h, tt)
shared_flow-HaveFlow first flow (c ∷ l) some_flow h = elim (Bool-cases (text_eq c.flow first)) [
  | inl same ↦
      let (at, rest) = shared_flow-HaveFlow first flow l some_flow (ground (arith, same)) in
      (at, (ground (arith, (text_eq_iff c.flow first).0 same, at), rest))
  | inr other ↦ absurd (ground (arith, other))
]

HaveFlow-shared_flow : (flow : Text) (l : List Client) → HaveFlow flow l → shared_flow flow l ≡ flow
unfolding shared_flow
HaveFlow-shared_flow flow [] h = refl
HaveFlow-shared_flow flow (c ∷ l) h =
    ground (arith, HaveFlow-shared_flow flow l h.1, (text_eq_iff c.flow flow).1 h.0)

flow_of-HaveFlow :
    (flow : Text) (l : List Client)
    → flow ≢ []
    → (flow_of l ≡ flow) ↔ ((is_nil l ≡ false) × HaveFlow flow l)
unfolding flow_of
flow_of-HaveFlow flow [] some_flow =
    (λ h. absurd (ground (arith, h)), λ h. absurd (ground (arith, h.0)))
flow_of-HaveFlow flow (c ∷ l) some_flow = (
  λ h. (refl, shared_flow-HaveFlow c.flow flow l some_flow h),
  λ h. rw h.1.0 (HaveFlow-shared_flow flow l h.1.1),
)

of_settings :
    (flow : Text) (o : Option Settings)
    → flow ≢ []
    → (elim o as (λ x. Text) [ none ↦ [] | some s ↦ flow_of s.clients ] ≡ flow) ↔ (
        (is_nil (elim o as (λ x. Settings) [ none ↦ empty_settings | some s ↦ s ]).clients ≡ false)
        × HaveFlow flow (elim o as (λ x. Settings) [ none ↦ empty_settings | some s ↦ s ]).clients)
of_settings flow none some_flow =
    (λ h. absurd (ground (arith, h)), λ h. absurd (ground (arith, h.0)))
of_settings flow (some s) some_flow = flow_of-HaveFlow flow s.clients some_flow

-- primaryFlow reports a flow other than the empty one exactly if the inbound has clients and every
-- one of them has that flow.
pub primary_flow-HaveFlow :
    (i : Inbound) (flow : Text)
    → flow ≢ []
    → (primary_flow i ≡ flow)
      ↔ ((is_nil (settings_of i).clients ≡ false) × HaveFlow flow (settings_of i).clients)
unfolding primary_flow
primary_flow-HaveFlow i flow some_flow = of_settings flow i.settings some_flow
