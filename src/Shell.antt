-- ===== src/Shell.antt =====
-- The frame of the page: apps/web/app/layout.tsx and apps/web/app/page.tsx, and the bindings of
-- apps/web/vite.config.ts.
use shiftzero_hero.Common.{ℕ, String, ◌&◌, Option, List, [], ◌∷◌, is_truthy, if◌then◌else◌}
use shiftzero_hero.Html.{Html, class_name, attr, el, from_option}
use shiftzero_hero.Numbers.{Numbers}
use shiftzero_hero.Console.Replay.{Console, Click}
use shiftzero_hero.Console.View.{mission_console}

pub record Image : Type 0 where
  pub url : String
  pub width : ℕ
  pub height : ℕ

pub record OpenGraph : Type 0 where
  pub title : String
  pub description : String
  pub images : List Image

pub record TwitterCard : Type 0 where
  pub card : String
  pub title : String
  pub description : String
  pub images : List String

pub record Metadata : Type 0 where
  pub metadata_base : String
  pub title : String
  pub description : String
  pub open_graph : OpenGraph
  pub twitter : TwitterCard

-- From `process.env.NEXT_PUBLIC_SITE_URL`; the URL stands as its text.
abbrev pub metadata : Option String → Metadata
metadata site_url = record {
  metadata_base =
      from_option "https://shiftzero-hero-002.mingjen.chatgpt.site" (λ url. url) site_url;
  title = "ShiftZero HERO-002 | Judge Mode";
  description =
      "One sentence in. One verified robot mission out. A proof-carrying mission console for warehouse robots.";
  open_graph = record {
    title = "ShiftZero HERO-002 | Judge Mode";
    description = "One sentence in. One verified robot mission out.";
    images = record { url = "/og.png"; width = 1731; height = 909 } ∷ [];
  };
  twitter = record {
    card = "summary_large_image";
    title = "ShiftZero HERO-002 | Judge Mode";
    description = "One sentence in. One verified robot mission out.";
    images = "/og.png" ∷ [];
  };
}

-- `RootLayout`, with the classes that the two fonts give.
abbrev pub root_layout : {A : Type 0} → String → String → Html A → Html A
root_layout sans mono children =
    el "html" (attr "lang" "en" ∷ [])
      (el "body" (class_name (sans & (" " & (mono & " antialiased"))) ∷ []) children)

-- `Home`: the page is the console.
abbrev pub home : (N : Numbers) → Console N.Number → Html Click
home N c = mission_console N c

pub record Database : Type 0 where
  pub binding : String
  pub database_name : String
  pub database_id : String

pub record Bucket : Type 0 where
  pub binding : String
  pub bucket_name : String

pub record Bindings : Type 0 where
  pub main : String
  pub compatibility_flags : List String
  pub d1_databases : List Database
  pub r2_buckets : List Bucket

-- `localBindingConfig`, from the two names of the hosting configuration.
abbrev pub local_binding_config : Option String → Option String → Bindings
local_binding_config d1 r2 = record {
  main = "vinext/server/fetch-handler";
  compatibility_flags = "nodejs_compat" ∷ [];
  d1_databases =
      if is_truthy d1
      then record {
        binding = from_option "" (λ name. name) d1;
        database_name = "site-creator-d1";
        database_id = "00000000-0000-4000-8000-000000000000";
      }
        ∷ []
      else [];
  r2_buckets =
      if is_truthy r2
      then record { binding = from_option "" (λ name. name) r2; bucket_name = "site-creator-r2" }
        ∷ []
      else [];
}
