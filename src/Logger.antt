-- ===== src/Logger.antt =====
-- internal/logger/logger.go: the lines that the program prints. `lipgloss` is a parameter, which renders a text
-- in a style.
use nas_conn_plus.Base.{
  Str, codes, str_beq, is_empty, ◌≡◌, refl, [], ◌++◌, Bool, true, false, not, ◌||◌, if◌then◌else◌,
}

-- `lipgloss.Style`, as far as it is set here: bold, and a colour, empty if none is set.
pub record Style : Type 0 where
  pub bold : Bool
  pub foreground : Str

abbrev Renderer : Type 0
Renderer = Style → Str → Str

-- `Logger`; the style of the time is empty without colours.
pub record Logger : Type 0 where
  pub use_color : Bool
  pub tag_info : Str
  pub tag_add : Str
  pub tag_stop : Str
  pub tag_reload : Str
  pub tag_warn : Str
  pub time_style : Style

abbrev pub bold_in : Str → Style
bold_in color = record { bold = true; foreground = color }

abbrev plain : Style
plain = record { bold = false; foreground = [] }

module _ (render : Renderer) where
  -- A tag, in its colour if there are colours.
  tag : Bool → Str → Str → Str
  tag use_color color text = if use_color then render (bold_in color) text else text

  -- `New`: NO_COLOR and TERM are those of the environment, empty if they are not set.
  unfoldable pub new_logger : Str → Str → Logger
  unfolding tag str_beq
  new_logger no_color term =
      let use_color = not (not (is_empty no_color) || str_beq term (codes "dumb")) in
      record {
        use_color = use_color;
        tag_info = tag use_color (codes "#8BE9FD") (codes "[INFO]");
        tag_add = tag use_color (codes "#50FA7B") (codes "[ + ]");
        tag_stop = tag use_color (codes "#FFB86C") (codes "[ - ]");
        tag_reload = tag use_color (codes "#BD93F9") (codes "[ ~ ]");
        tag_warn = tag use_color (codes "#FF5555") (codes "[ ! ]");
        time_style =
            if use_color then record { bold = false; foreground = codes "#6272A4" } else plain;
      }

  -- `logf`: the time and the message are already formatted.
  unfoldable pub log_line : Logger → Str → Str → Str → Str
  log_line l now tag_text message =
      let shown = if l.use_color then render l.time_style now else now in
      shown ++ (codes " " ++ (tag_text ++ (codes " " ++ (message ++ codes "\n"))))

  unfoldable pub log_info : Logger → Str → Str → Str
  unfolding log_line
  log_info l now message = log_line l now l.tag_info message

  unfoldable pub log_add : Logger → Str → Str → Str
  unfolding log_line
  log_add l now message = log_line l now l.tag_add message

  unfoldable pub log_stop : Logger → Str → Str → Str
  unfolding log_line
  log_stop l now message = log_line l now l.tag_stop message

  unfoldable pub log_reload : Logger → Str → Str → Str
  unfolding log_line
  log_reload l now message = log_line l now l.tag_reload message

  unfoldable pub log_warn : Logger → Str → Str → Str
  unfolding log_line
  log_warn l now message = log_line l now l.tag_warn message

  -- `Banner`: what is printed around the drawing, with the drawing as it is rendered.
  unfoldable pub banner : Logger → Str → Str → Str
  banner l drawing version =
      let title = codes "   nasconn+ v" ++ version in
      let line = codes " — Seamless IPv6 Relay & HTTPS Upgrade for NAS\n" in
      if l.use_color
      then render (bold_in (codes "#00D7D7")) drawing
        ++ (codes "\n"
            ++ (render (bold_in (codes "#F8F8F2")) title
                ++ (render (record { bold = false; foreground = codes "#6272A4" }) line
                    ++ codes "\n")))
      else drawing ++ (codes "\n" ++ (title ++ (line ++ codes "\n")))

  -- Without colours nothing is rendered: the line is the time, the tag and the message.
  log_warn-plain :
      (term now message : Str)
      → log_warn (new_logger (codes "1") term) now message
        ≡ now ++ (codes " [ ! ] " ++ (message ++ codes "\n"))
  unfolding log_warn new_logger
  log_warn-plain term now message = refl
