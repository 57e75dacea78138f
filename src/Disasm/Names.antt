-- ===== src/Disasm/Names.antt =====
-- The handler names of the opcode map as texts, and the sets of them that src/sixfiveohtwo/disasm.py
-- and _dispatch.py name.
use python.Prelude.{List, [], ◌∷◌}
use python.Text.{Text, chars}
use python.Dispatch.Names.{Implied, Addressed, Entry, implied, addressed}

-- The name of a handler, as `OPCODES` writes it.
unfoldable pub implied_name : Implied → Text
implied_name Implied.brk = chars "brk"
implied_name Implied.jam = chars "jam"
implied_name Implied.php = chars "php"
implied_name Implied.asl_a = chars "asl_a"
implied_name Implied.bpl = chars "bpl"
implied_name Implied.clc = chars "clc"
implied_name Implied.nop = chars "nop"
implied_name Implied.jsr = chars "jsr"
implied_name Implied.plp = chars "plp"
implied_name Implied.rol_a = chars "rol_a"
implied_name Implied.bmi = chars "bmi"
implied_name Implied.sec = chars "sec"
implied_name Implied.rti = chars "rti"
implied_name Implied.pha = chars "pha"
implied_name Implied.lsr_a = chars "lsr_a"
implied_name Implied.jmp = chars "jmp"
implied_name Implied.bvc = chars "bvc"
implied_name Implied.cli = chars "cli"
implied_name Implied.rts = chars "rts"
implied_name Implied.pla = chars "pla"
implied_name Implied.ror_a = chars "ror_a"
implied_name Implied.jmp_ind = chars "jmp_ind"
implied_name Implied.bvs = chars "bvs"
implied_name Implied.sei = chars "sei"
implied_name Implied.dey = chars "dey"
implied_name Implied.txa = chars "txa"
implied_name Implied.bcc = chars "bcc"
implied_name Implied.tya = chars "tya"
implied_name Implied.txs = chars "txs"
implied_name Implied.tay = chars "tay"
implied_name Implied.tax = chars "tax"
implied_name Implied.bcs = chars "bcs"
implied_name Implied.clv = chars "clv"
implied_name Implied.tsx = chars "tsx"
implied_name Implied.iny = chars "iny"
implied_name Implied.dex = chars "dex"
implied_name Implied.bne = chars "bne"
implied_name Implied.cld = chars "cld"
implied_name Implied.inx = chars "inx"
implied_name Implied.beq = chars "beq"
implied_name Implied.sed = chars "sed"

unfoldable pub addressed_name : Addressed → Text
addressed_name Addressed.ora = chars "ora"
addressed_name Addressed.slo = chars "slo"
addressed_name Addressed.nop_read = chars "nop_read"
addressed_name Addressed.asl = chars "asl"
addressed_name Addressed.anc = chars "anc"
addressed_name Addressed.and = chars "and"
addressed_name Addressed.rla = chars "rla"
addressed_name Addressed.bit = chars "bit"
addressed_name Addressed.rol = chars "rol"
addressed_name Addressed.eor = chars "eor"
addressed_name Addressed.sre = chars "sre"
addressed_name Addressed.lsr = chars "lsr"
addressed_name Addressed.alr = chars "alr"
addressed_name Addressed.adc = chars "adc"
addressed_name Addressed.rra = chars "rra"
addressed_name Addressed.ror = chars "ror"
addressed_name Addressed.arr = chars "arr"
addressed_name Addressed.sta = chars "sta"
addressed_name Addressed.sax = chars "sax"
addressed_name Addressed.sty = chars "sty"
addressed_name Addressed.stx = chars "stx"
addressed_name Addressed.ane = chars "ane"
addressed_name Addressed.sha = chars "sha"
addressed_name Addressed.tas = chars "tas"
addressed_name Addressed.shy = chars "shy"
addressed_name Addressed.shx = chars "shx"
addressed_name Addressed.ldy = chars "ldy"
addressed_name Addressed.lda = chars "lda"
addressed_name Addressed.ldx = chars "ldx"
addressed_name Addressed.lax = chars "lax"
addressed_name Addressed.lxa = chars "lxa"
addressed_name Addressed.las = chars "las"
addressed_name Addressed.cpy = chars "cpy"
addressed_name Addressed.cmp = chars "cmp"
addressed_name Addressed.dcp = chars "dcp"
addressed_name Addressed.dec = chars "dec"
addressed_name Addressed.sbx = chars "sbx"
addressed_name Addressed.cpx = chars "cpx"
addressed_name Addressed.sbc = chars "sbc"
addressed_name Addressed.isc = chars "isc"
addressed_name Addressed.inc = chars "inc"
addressed_name Addressed.usbc = chars "usbc"

unfoldable pub handler_name : Entry → Text
unfolding implied_name addressed_name
handler_name (implied h _) = implied_name h
handler_name (addressed h _ _) = addressed_name h

-- `_BRANCHES`
abbrev pub branches : List Text
branches =
    chars "bpl"
    ∷ chars "bmi"
    ∷ chars "bvc"
    ∷ chars "bvs"
    ∷ chars "bcc"
    ∷ chars "bcs"
    ∷ chars "bne"
    ∷ chars "beq"
    ∷ []

-- `_UNDOCUMENTED_HANDLERS`
abbrev pub undocumented_handlers : List Text
undocumented_handlers =
    chars "slo"
    ∷ chars "rla"
    ∷ chars "sre"
    ∷ chars "rra"
    ∷ chars "sax"
    ∷ chars "lax"
    ∷ chars "dcp"
    ∷ chars "isc"
    ∷ chars "anc"
    ∷ chars "alr"
    ∷ chars "arr"
    ∷ chars "sbx"
    ∷ chars "usbc"
    ∷ chars "las"
    ∷ chars "jam"
    ∷ chars "sha"
    ∷ chars "shx"
    ∷ chars "shy"
    ∷ chars "tas"
    ∷ chars "ane"
    ∷ chars "lxa"
    ∷ []
