-- ===== src/Api/Tests.antt =====
-- Runs of the stream display.
use deepdive.Base.{◌≡◌, refl}
use deepdive.Text.{codes, text_eq}
use deepdive.Json.{Fields, null, str, obj, field, end}
use deepdive.Api.Sse.{display_event_payload, tool_result_display_payload, strip_sensitive}
use deepdive.Api.Sse.Clean.{IsCleanFields, display_event_payload-IsCleanFields}

-- A tool's result with the prompt inside.
abbrev payload : Fields
payload =
    field (codes "ok")
      (obj
        (field (codes "Prompt") (str (codes "p")) (field (codes "path") (str (codes "a.py")) end)))
      (field (codes "system") null end)

shown :
    display_event_payload (codes "tool_result") payload
    ≡ field (codes "ok") (obj (field (codes "path") (str (codes "a.py")) end)) end
unfolding display_event_payload text_eq tool_result_display_payload strip_sensitive
shown = refl

display_event_payload-IsCleanFields_example :
    IsCleanFields (display_event_payload (codes "tool_result") payload)
display_event_payload-IsCleanFields_example =
    display_event_payload-IsCleanFields (codes "tool_result") payload
