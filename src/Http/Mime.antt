-- ===== src/Http/Mime.antt =====
-- `MimeType`: the table of the file types.
use light_agent_gateway.Common.{List, [], ◌∷◌, if◌then◌else◌}
use light_agent_gateway.Common.Bytes.{Bytes, codes, bytes_eq}

-- `MimeType::init`.
pub mime : List (Bytes × Bytes)
mime =
    (codes ".html", codes "text/html")
    ∷ (codes ".avi", codes "video/x-msvideo")
    ∷ (codes ".bmp", codes "image/bmp")
    ∷ (codes ".c", codes "text/plain")
    ∷ (codes ".doc", codes "application/msword")
    ∷ (codes ".gif", codes "image/gif")
    ∷ (codes ".gz", codes "application/x-gzip")
    ∷ (codes ".htm", codes "text/html")
    ∷ (codes ".ico", codes "image/x-icon")
    ∷ (codes ".jpg", codes "image/jpeg")
    ∷ (codes ".png", codes "image/png")
    ∷ (codes ".txt", codes "text/plain")
    ∷ (codes ".mp3", codes "audio/mp3")
    ∷ (codes "default", codes "text/html")
    ∷ []

find_or : Bytes → List (Bytes × Bytes) → Bytes → Bytes
find_or key [] other = other
find_or key ((k, v) ∷ m) other = if bytes_eq k key then v else find_or key m other

-- The type of a suffix, or that of "default".
unfoldable pub get_mime : Bytes → Bytes
unfolding find_or mime
get_mime suffix = find_or suffix mime (find_or (codes "default") mime [])
