-- ===== src/Tools/Builtin.antt =====
-- app/tools/builtin: the calculator and the datetime tool. Python's operators are arguments, since
-- they work on floats: a value, a TypeError, or another exception (a division by zero). `clock`
-- gives the time of the call in both formats, `signature_error` the text of Python's TypeError on
-- arguments that do not fit the function, and `show` is `str` on a value.
use fastapi_langgraph_templa.Common.{
  String, str_eq, str_append, List, [], ◌∷◌, Option, none, some, Bool, true, ◌&&◌, any,
  if◌then◌else◌,
}
use fastapi_langgraph_templa.Json.{Json, Items, Fields, text, arr, obj, nil, cons, end, field}
use fastapi_langgraph_templa.Graph.Validator.{get_field}
use fastapi_langgraph_templa.Tools.{ToolDef, read, builtin, Called, value, type_error, other_error}

pub record Python : Type 0 where
  pub add : Json → Json → Called
  pub sub : Json → Json → Called
  pub mul : Json → Json → Called
  pub truediv : Json → Json → Called
  pub pow : Json → Json → Called
  pub isoformat : Json
  pub timestamp : Json
  pub show : Json → String
  pub signature_error : Fields → String

-- every argument is a parameter of the function
abbrev pub only : List String → Fields → Bool
only names end = true
only names (field k v fs) = any (λ name. str_eq name k) names && only names fs

-- `_OPS.get(operation)`
abbrev pub operator_of : Python → String → Option (Json → Json → Called)
operator_of python operation =
    if str_eq operation "add"
    then some python.add
    else if str_eq operation "sub"
    then some python.sub
    else if str_eq operation "mul"
    then some python.mul
    else if str_eq operation "div"
    then some python.truediv
    else if str_eq operation "pow"
    then some python.pow
    else none

abbrev pub computed : String → Called → Called
computed operation (value v) =
    value (obj (field "value" v (field "operation" (text operation) end)))
computed operation (type_error message) = type_error message
computed operation (other_error message) = other_error message

abbrev pub apply_operator : String → Option (Json → Json → Called) → Json → Json → Called
apply_operator operation none a b = other_error (str_append "unknown operation: " operation)
apply_operator operation (some op) a b = computed operation (op a b)

abbrev pub calculate : Python → Json → Json → Json → Called
calculate python (text operation) a b = apply_operator operation (operator_of python operation) a b
calculate python (arr xs) a b = type_error "unhashable type: 'list'"
calculate python (obj fs) a b = type_error "unhashable type: 'dict'"
calculate python operation a b =
    other_error (str_append "unknown operation: " (python.show operation))

abbrev pub with_operands : Python → Fields → Option Json → Option Json → Option Json → Called
with_operands python arguments (some operation) (some a) (some b) = calculate python operation a b
with_operands python arguments _ _ _ = type_error (python.signature_error arguments)

unfoldable pub calculator : Python → Fields → Called
calculator python arguments =
    if only ("operation" ∷ "a" ∷ "b" ∷ []) arguments
    then with_operands python arguments (get_field "operation" arguments) (get_field "a" arguments)
        (get_field "b" arguments)
    else type_error (python.signature_error arguments)

abbrev pub time_in : Python → Json → Called
time_in python (text format) =
    if str_eq format "iso"
    then value (obj (field "time" python.isoformat end))
    else if str_eq format "unix"
    then value (obj (field "time" python.timestamp end))
    else other_error (str_append "unknown format: " format)
time_in python format = other_error (str_append "unknown format: " (python.show format))

abbrev pub format_of : Option Json → Json
format_of none = text "iso"
format_of (some v) = v

unfoldable pub get_current_time : Python → Fields → Called
get_current_time python arguments =
    if only ("format" ∷ []) arguments
    then time_in python (format_of (get_field "format" arguments))
    else type_error (python.signature_error arguments)

abbrev type_field : String → Fields → Json
type_field type rest = obj (field "type" (text type) rest)

abbrev enum_items : List String → Items
enum_items [] = nil
enum_items (s ∷ ss) = cons (text s) (enum_items ss)

abbrev pub calculator_tool : ToolDef
calculator_tool = record {
  name = "calculator";
  description = "Perform basic arithmetic operations (add, sub, mul, div, pow)";
  input_schema = type_field "object" (
      field "properties"
        (obj (
          field "operation"
            (type_field "string"
              (field "enum" (arr (enum_items ("add" ∷ "sub" ∷ "mul" ∷ "div" ∷ "pow" ∷ []))) end))
            (field "a" (type_field "number" end) (field "b" (type_field "number" end) end))))
        (field "required" (arr (enum_items ("operation" ∷ "a" ∷ "b" ∷ []))) end));
  risk = read;
  source = builtin;
}

abbrev pub datetime_tool : ToolDef
datetime_tool = record {
  name = "datetime";
  description = "Get the current UTC time in ISO or Unix format";
  input_schema = type_field "object" (
      field "properties"
        (obj (
          field "format"
            (type_field "string" (
              field "enum" (arr (enum_items ("iso" ∷ "unix" ∷ [])))
                (field "default" (text "iso") end)))
            end))
        end);
  risk = read;
  source = builtin;
}
