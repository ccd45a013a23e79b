-- ===== src/Paging/Flags.antt =====
-- kernel/rust/src/memory/paging/api.rs, `PageFlags`: the flags that pass down to the tables below and
-- those of one mapping. A set of flags is a record of its members, on which the operators of the two
-- `bitflags` types act flag by flag. The deprecated alias USER_WRITEABLE is `writeable`.
use cookie_os.Base.{Bool, true, false, not, ◌&&◌, ◌||◌}

pub record TransitivePageFlags : Type 0 where
  pub user_readable : Bool
  pub writeable : Bool
  pub executable : Bool

pub record MappingSpecificPageFlags : Type 0 where
  pub global : Bool
  pub pinned : Bool
  pub cache_disable : Bool
  pub cache_write_through : Bool

pub record PageFlags : Type 0 where
  pub tflags : TransitivePageFlags
  pub mflags : MappingSpecificPageFlags

abbrev pub no_tflags : TransitivePageFlags
no_tflags = record { user_readable = false; writeable = false; executable = false }

abbrev pub no_mflags : MappingSpecificPageFlags
no_mflags = record {
  global = false;
  pinned = false;
  cache_disable = false;
  cache_write_through = false;
}

abbrev pub empty : PageFlags
empty = record { tflags = no_tflags; mflags = no_mflags }

abbrev pub tflags_by :
    (Bool → Bool → Bool) → TransitivePageFlags → TransitivePageFlags → TransitivePageFlags
tflags_by op f g = record {
  user_readable = op f.user_readable g.user_readable;
  writeable = op f.writeable g.writeable;
  executable = op f.executable g.executable;
}

abbrev pub mflags_by :
    (Bool → Bool → Bool)
    → MappingSpecificPageFlags
    → MappingSpecificPageFlags
    → MappingSpecificPageFlags
mflags_by op f g = record {
  global = op f.global g.global;
  pinned = op f.pinned g.pinned;
  cache_disable = op f.cache_disable g.cache_disable;
  cache_write_through = op f.cache_write_through g.cache_write_through;
}

abbrev pub xor : Bool → Bool → Bool
xor true b = not b
xor false b = b

abbrev pub and_not : Bool → Bool → Bool
and_not a b = a && not b

-- `self & tflags` and `self & mflags` give the part alone.
abbrev pub bitand_tflags : PageFlags → TransitivePageFlags → TransitivePageFlags
bitand_tflags f t = tflags_by ◌&&◌ f.tflags t

abbrev pub bitand_mflags : PageFlags → MappingSpecificPageFlags → MappingSpecificPageFlags
bitand_mflags f m = mflags_by ◌&&◌ f.mflags m

abbrev pub bitor_tflags : PageFlags → TransitivePageFlags → PageFlags
bitor_tflags f t = record { tflags = tflags_by ◌||◌ f.tflags t; mflags = f.mflags }

abbrev pub bitor_mflags : PageFlags → MappingSpecificPageFlags → PageFlags
bitor_mflags f m = record { tflags = f.tflags; mflags = mflags_by ◌||◌ f.mflags m }

abbrev pub bitxor_tflags : PageFlags → TransitivePageFlags → PageFlags
bitxor_tflags f t = record { tflags = tflags_by xor f.tflags t; mflags = f.mflags }

abbrev pub bitxor_mflags : PageFlags → MappingSpecificPageFlags → PageFlags
bitxor_mflags f m = record { tflags = f.tflags; mflags = mflags_by xor f.mflags m }

abbrev pub sub_tflags : PageFlags → TransitivePageFlags → PageFlags
sub_tflags f t = record { tflags = tflags_by and_not f.tflags t; mflags = f.mflags }

abbrev pub sub_mflags : PageFlags → MappingSpecificPageFlags → PageFlags
sub_mflags f m = record { tflags = f.tflags; mflags = mflags_by and_not f.mflags m }

-- The operators on two whole sets of flags, part by part.
abbrev pub by_parts : (Bool → Bool → Bool) → PageFlags → PageFlags → PageFlags
by_parts op f g = record {
  tflags = tflags_by op f.tflags g.tflags;
  mflags = mflags_by op f.mflags g.mflags;
}

abbrev pub bitand : PageFlags → PageFlags → PageFlags
bitand = by_parts ◌&&◌

abbrev pub bitor : PageFlags → PageFlags → PageFlags
bitor = by_parts ◌||◌

abbrev pub bitxor : PageFlags → PageFlags → PageFlags
bitxor = by_parts xor

abbrev pub sub : PageFlags → PageFlags → PageFlags
sub = by_parts and_not
