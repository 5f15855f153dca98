-- ===== src/FieldTest/Download.antt =====
-- The download of apps/web/components/field-test-simulator.tsx: `downloadJson`, as the calls that it
-- makes to the browser, in order.
use shiftzero_hero.Common.{String, ◌&◌, none, some, List, [], ◌∷◌}
use shiftzero_hero.FieldTest.Session.{Session}
use shiftzero_hero.FieldTest.Export.{Dates, Payload, export_rehearsal}

pub data BrowserCall : Type 0 where
  create_object_url : String → String → BrowserCall  -- the text and the type of a new Blob
  create_element : String → BrowserCall
  set_href set_download : String → BrowserCall
  click : BrowserCall
  revoke_object_url : String → BrowserCall

-- What the browser gives: `JSON.stringify(payload, null, 2)`, and the URL of a Blob.
pub record Browser : Type 0 where
  pub stringify : Payload → String
  pub object_url : String → String

abbrev pub download_json : Browser → Payload → List BrowserCall
download_json B payload =
    let text = B.stringify payload & "\n" in
    let url = B.object_url text in
    create_object_url text "application/json"
    ∷ create_element "a"
    ∷ set_href url
    ∷ set_download "hero002-a06-a07-digital-twin-evidence.json"
    ∷ click
    ∷ revoke_object_url url
    ∷ []

-- The calls that a click on the download button makes.
abbrev pub downloads : Browser → Dates → Session → List BrowserCall
downloads B D s = elim (export_rehearsal D s) [ none ↦ [] | some payload ↦ download_json B payload ]
