-- ===== src/Json.antt =====
-- The JSON values that payloads, arguments and configurations hold. A dict is the list of its
-- items in insertion order; a number is an integer that is not negative (no operation modelled
-- here computes with one).
use fastapi_langgraph_templa.Common.{ℕ, String, Bool}

mutual
  pub data Json : Type 0 where
    null : Json
    bool : Bool → Json
    num : ℕ → Json
    text : String → Json
    arr : Items → Json
    obj : Fields → Json

  pub data Items : Type 0 where
    nil : Items
    cons : Json → Items → Items

  pub data Fields : Type 0 where
    end : Fields
    field : String → Json → Fields → Fields
