-- ===== src/Core/Cron/Words.antt =====
-- The string methods that packages/core/src/cron.ts calls: `split` and `trim`.
use hobbyist.Base.{
  ℕ, Bool, false, ◌&&◌, ◌||◌, ◌==◌, leb, Text, List, [], ◌∷◌, length, if◌then◌else◌,
}

-- `split` at a separator of one character.
unfoldable pub split : ℕ → Text → List Text
split separator [] = [] ∷ []
split separator (c ∷ t) = elim (split separator t) [
  | [] ↦ []
  | part ∷ parts ↦ if c == separator then [] ∷ part ∷ parts else (c ∷ part) ∷ parts
]

-- What `trim` and `\s` take for white space.
abbrev pub is_space : ℕ → Bool
is_space c =
    (leb 9 c && leb c 13)
    || ((c == 32)
        || ((c == 160)
            || ((c == 5760)
                || ((leb 8192 c && leb c 8202)
                    || ((c == 8232)
                        || ((c == 8233)
                            || ((c == 8239)
                                || ((c == 8287) || ((c == 12288) || (c == 65279))))))))))

abbrev pub trim_start : Text → Text
trim_start [] = []
trim_start (c ∷ t) = if is_space c then trim_start t else c ∷ t

abbrev pub trim_end : Text → Text
trim_end [] = []
trim_end (c ∷ t) =
    let rest = trim_end t in if is_space c && (length rest == 0) then [] else c ∷ rest

abbrev pub starts_with_space : Text → Bool
starts_with_space [] = false
starts_with_space (c ∷ t) = is_space c

-- `split(/\s+/)`.
unfoldable pub split_spaces : Text → List Text
split_spaces [] = [] ∷ []
split_spaces (c ∷ t) = elim (split_spaces t) [
  | [] ↦ []
  | part ∷ parts ↦
      if is_space c
      then (if starts_with_space t then part ∷ parts else [] ∷ part ∷ parts)
      else (c ∷ part) ∷ parts
]
