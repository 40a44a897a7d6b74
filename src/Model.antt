-- ===== src/Model.antt =====
-- src/model/mod.rs: the pipeline file, runs, steps and artifacts. An `IndexMap` is its entries in
-- order, and a time is a number of ticks since the epoch.
use flowz.Prelude.{ℕ, Str, List, Option}

abbrev pub IndexMap : Type 0 → Type 0
IndexMap V = List (Str × V)

pub record SecretsConfig : Type 0 where
  pub provider : Str
  pub project : Str
  pub configurations : IndexMap Str

pub data Trigger : Type 0 where
  push : Option (List Str) → Trigger
  pull_request : Option (List Str) → Trigger
  cron : Str → Trigger

pub record Only : Type 0 where
  pub branch : Option Str

pub record Step : Type 0 where
  pub run : Option Str
  pub exec : Option Str
  pub needs : List Str
  pub only : Option Only
  pub env : IndexMap Str
  pub secrets : Option Str
  pub timeout : Option Str
  pub artifacts : List Str

pub record PipelineFile : Type 0 where
  pub version : ℕ
  pub triggers : List Trigger
  pub env : IndexMap Str
  pub secrets : Option SecretsConfig
  pub cache : IndexMap Str
  pub steps : IndexMap Step

pub data RunStatus : Type 0 where
  queued running success failure cancelled : RunStatus

pub data StepStatus : Type 0 where
  pending running success failure skipped : StepStatus

pub record Run : Type 0 where
  pub id : Str
  pub repo : Str
  pub branch : Str
  pub commit : Str
  pub clone_url : Str
  pub status : RunStatus
  pub created_at : ℕ
  pub updated_at : ℕ

pub record Repo : Type 0 where
  pub id : Str
  pub name : Str
  pub clone_url : Str
  pub branch : Str

pub record Artifact : Type 0 where
  pub run_id : Str
  pub step : Str
  pub path : Str
  pub size : ℕ
  pub created_at : ℕ

pub record StepRecord : Type 0 where
  pub run_id : Str
  pub name : Str
  pub status : StepStatus
  pub started_at : Option ℕ
  pub finished_at : Option ℕ
