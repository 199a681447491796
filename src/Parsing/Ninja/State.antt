-- ===== src/Parsing/Ninja/State.antt =====
-- The data of ivl/parsing/ninja/default.hpp. A `std::map` is a list of pairs, a `std::set` a list.
use all.Prelude.{ℕ, List}

abbrev pub Name : Type 0
Name = List ℕ

pub record Variable : Type 0 where
  pub name : Name
  pub value : List ℕ

-- `std::variant<rule_variable::text, rule_variable::identifier>`
pub data Piece : Type 0 where
  text : List ℕ → Piece
  identifier : Name → Piece

pub record RuleVariable : Type 0 where
  pub name : Name
  pub value : List Piece

pub record Rule : Type 0 where
  pub name : Name
  pub variables : List (Name × RuleVariable)

pub record Pool : Type 0 where
  pub name : Name
  pub depth : ℕ

pub record Build : Type 0 where
  pub outputs : List Name
  pub implicit_outputs : List Name
  pub inputs : List Name
  pub implicit_inputs : List Name
  pub order_only_inputs : List Name
  pub rule_vars : List (Name × List ℕ)

-- `state`
pub record NinjaState : Type 0 where
  pub variables : List (Name × Variable)
  pub rules : List (Name × Rule)
  pub pools : List (Name × Pool)
  pub builds : List Build
  pub targets : List Name
  pub defaults : List Name
