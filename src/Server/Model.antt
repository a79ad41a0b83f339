-- ===== src/Server/Model.antt =====
-- model.go: what the tools take and give. A `top_k` that is not positive is 0.
use mnemonic.Prelude.{ℕ, String, List}
use mnemonic.Store.Entry.{HeadInfo}

pub record QueryInput : Type 0 where
  pub query : String
  pub category : String
  pub categories : List String
  pub top_k : ℕ
  pub scopes : List String

pub record QueryResult : Type 0 where
  pub id : String
  pub content : String
  pub category : String
  pub tags : List String
  pub scope : String
  pub source : String

pub record QueryOutput : Type 0 where
  pub entries : List QueryResult

pub record AddInput : Type 0 where
  pub content : String
  pub category : String
  pub tags : List String
  pub scope : String
  pub source : String

pub record AddOutput : Type 0 where
  pub status : String
  pub id : String
  pub scope : String
  pub category : String

pub record ReinforceInput (F : Type 0) : Type 0 where
  pub id : String
  pub delta : F

pub record ReinforceOutput (F : Type 0) : Type 0 where
  pub status : String
  pub id : String
  pub delta : F

pub record ListHeadsOutput : Type 0 where
  pub heads : List HeadInfo
